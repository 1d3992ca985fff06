-- ===== src/Sql/MariaDb.antt =====
-- The statements of `provisionMariaDB`.
use homelab_db_provisioner.Prelude.{[], ◌∷◌, List, ◌++◌, Text, txt, join}
use homelab_db_provisioner.Config.{DatabaseConfig}
use homelab_db_provisioner.Sql.Escape.{escape_string}

-- 'user'@'%'
account : DatabaseConfig → Text
account c = txt "'" ++ (escape_string c.user ++ txt "'@'%'")

identified : DatabaseConfig → Text
identified c = txt " IDENTIFIED BY '" ++ (escape_string c.password ++ txt "'")

unfoldable pub create_database : DatabaseConfig → Text
create_database c =
    txt "CREATE DATABASE IF NOT EXISTS `"
    ++ (c.database ++ txt "` CHARACTER SET utf8mb4 COLLATE utf8mb4_unicode_ci")

unfoldable pub create_user : DatabaseConfig → Text
unfolding account identified
create_user c = txt "CREATE USER " ++ (account c ++ identified c)

unfoldable pub alter_user : DatabaseConfig → Text
unfolding account identified
alter_user c = txt "ALTER USER " ++ (account c ++ identified c)

privileges : List Text → Text
privileges [] = txt "ALL PRIVILEGES"
privileges (p ∷ ps) = join (txt ", ") (p ∷ ps)

unfoldable pub grant : DatabaseConfig → Text
unfolding account privileges
grant c =
    txt "GRANT "
    ++ (privileges c.permissions ++ (txt " ON `" ++ (c.database ++ (txt "`.* TO " ++ account c))))

unfoldable pub flush : Text
flush = txt "FLUSH PRIVILEGES"

unfoldable pub user_count : Text
user_count = txt "SELECT COUNT(*) FROM mysql.user WHERE user = ? AND host = '%'"

unfoldable pub database_count : Text
database_count = txt "SELECT COUNT(*) FROM information_schema.SCHEMATA WHERE SCHEMA_NAME = ?"
