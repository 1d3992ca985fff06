-- ===== src/World/Reads.antt =====
-- The calls that change nothing outside: they open, ask or list.
use homelab_db_provisioner.World.{
  Event, sql_open, sql_ping, sql_query, sql_tables, sql_count, mongo_connect, mongo_list, open_file,
  open_gzip, glob, s3_client, s3_list, s3_get, secret_get, config_read, random_below,
}

abbrev pub IsRead : Event → Type 0
IsRead (sql_open c) = Unit
IsRead (sql_ping c) = Unit
IsRead (sql_query c q a) = Unit
IsRead (sql_tables c) = Unit
IsRead (sql_count c q) = Unit
IsRead (mongo_connect u) = Unit
IsRead (mongo_list u) = Unit
IsRead (open_file f) = Unit
IsRead (open_gzip f) = Unit
IsRead (glob p) = Unit
IsRead s3_client = Unit
IsRead (s3_list b p) = Unit
IsRead (s3_get b k) = Unit
IsRead (secret_get n s) = Unit
IsRead config_read = Unit
IsRead (random_below n) = Unit
IsRead _ = ⊥
