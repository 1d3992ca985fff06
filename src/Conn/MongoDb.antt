-- ===== src/Conn/MongoDb.antt =====
-- `parseMongoDBConnStr` of mongo.go, which no other code calls.
use homelab_db_provisioner.Prelude.{
  List, [], Text, txt, not, ◌&&◌, starts_with, Result, ok, err, if◌then◌else◌,
}
use homelab_db_provisioner.Prelude.Dict.{insert}

unfoldable pub parse_mongodb_conn_str : Text → Result Text (List (Text × Text))
parse_mongodb_conn_str conn_str =
    let result =
      insert (txt "protocol") (txt "mongodb") (insert (txt "connectionString") conn_str []) in
    if not (starts_with (txt "mongodb://") conn_str)
      && not (starts_with (txt "mongodb+srv://") conn_str)
    then err (txt "invalid MongoDB connection string")
    else if starts_with (txt "mongodb+srv://") conn_str
    then ok (insert (txt "protocol") (txt "mongodb+srv") result)
    else ok result
