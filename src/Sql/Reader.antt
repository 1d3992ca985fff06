-- ===== src/Sql/Reader.antt =====
-- A reader of PostgreSQL statements: what those of the forms that main.go uses say. It is written
-- from the grammar of the statements, not from the code that builds them, and knows no others.
use homelab_db_provisioner.Prelude.{
  ℕ, ◌-◌, Bool, true, false, ◌&&◌, ◌||◌, leb, ◌==◌, if◌then◌else◌, Option, none, some, [], ◌∷◌,
  Text, txt, text_eq, starts_with, cut, length, take, drop, if◌then◌else◌,
}
use homelab_db_provisioner.Sql.Literal.{scan_string}

pub data Statement : Type 0 where
  -- a role, with its password
  create_role alter_role : Text → Text → Statement
  -- a database, with its owner
  create_database set_owner : Text → Text → Statement
  -- privileges, on a database, for a role
  grant : Text → Text → Text → Statement
  -- an extension of the database that the connection is for
  create_extension : Text → Statement
  -- the collation version of the template database is the one of the operating system
  refresh_collation : Statement
  -- a text that is none of these, which can be any statements whatever
  unknown : Text → Statement

infixl 5 ◌>>=◌
abbrev pub ◌>>=◌ : {A B : Type 0} → Option A → (A → Option B) → Option B
none >>= f = none
some a >>= f = f a

-- The text behind a word that has to stand first.
unfoldable pub after : Text → Text → Option Text
after word s = if starts_with word s then some (drop (length word) s) else none

abbrev pub quote : ℕ
quote = b'"'

-- What is before the closing quotation mark, and behind it.
abbrev pub closed : Text × Option Text → Option (Text × Text)
closed (name, none) = none
closed (name, some rest) = some (name, rest)

-- A name between quotation marks that holds none, and the text behind it.
unfoldable pub read_name : Text → Option (Text × Text)
read_name s = do s' ← after (txt "\"") s; closed (cut quote s')

abbrev pub at_end : {A : Type 0} → A → Text → Option A
at_end a [] = some a
at_end a (c ∷ s) = none

-- "role" WITH PASSWORD 'password'
unfoldable pub read_login : Text → Option (Text × Text)
read_login s = do
  (role, s₁) ← read_name s
  s₂ ← after (txt " WITH PASSWORD '") s₁
  (password, s₃) ← scan_string false s₂
  at_end (role, password) s₃

-- Two names with a word between them.
unfoldable pub read_names : Text → Text → Option (Text × Text)
read_names word s = do
  (first, s₁) ← read_name s
  s₂ ← after word s₁
  (second, s₃) ← read_name s₂
  at_end (first, second) s₃

-- The text without so many characters at its end.
unfoldable pub without_last : ℕ → Text → Text
without_last n s = take (length s - n) s

-- The text in front of a word that has to stand last.
unfoldable pub before : Text → Text → Option Text
before word s =
    if text_eq (drop (length s - length word) s) word
    then some (without_last (length word) s)
    else none

-- A letter, a space or a comma.
unfoldable pub is_word_char : ℕ → Bool
is_word_char c =
    (leb b'A' c && leb c b'Z') || ((leb b'a' c && leb c b'z') || (c == 0x20 || c == b','))

-- Words, such as privileges, with no mark that ends a statement or starts a name or a text.
unfoldable pub is_words : Text → Bool
unfolding is_word_char
is_words [] = true
is_words (c ∷ s) = is_word_char c && is_words s

-- privileges ON DATABASE "database" TO "role"
unfoldable pub read_grant : Text → Option Statement
read_grant s = do
  granted ← before (txt " ON DATABASE ") (cut quote s).0
  (database, role) ← read_names (txt " TO ") (drop (length (cut quote s).0) s)
  if is_words granted then some (Statement.grant granted database role) else none

-- "extension"
unfoldable pub read_extension : Text → Option Text
read_extension s = do (name, s₁) ← read_name s; at_end name s₁

abbrev pub or_else : {A : Type 0} → (A → Statement) → Statement → Option A → Statement
or_else f s none = s
or_else f s (some a) = f a

abbrev pub login : (Text → Text → Statement) → Text × Text → Statement
login f (a, b) = f a b

-- What is not about an owner.
unfoldable pub read_collation : Text → Text → Statement
read_collation s r =
    if text_eq r (txt "template1 REFRESH COLLATION VERSION") then refresh_collation else unknown s

-- The first words choose the form.
unfoldable pub read : Text → Statement
read s = elim (after (txt "CREATE USER ") s) [
  | some r ↦ or_else (login create_role) (unknown s) (read_login r)
  | none ↦ elim (after (txt "ALTER USER ") s) [
    | some r ↦ or_else (login alter_role) (unknown s) (read_login r)
    | none ↦ elim (after (txt "CREATE DATABASE ") s) [
      | some r ↦ or_else (login create_database) (unknown s) (read_names (txt " OWNER ") r)
      | none ↦ elim (after (txt "ALTER DATABASE ") s) [
        | some r ↦ or_else (login set_owner) (read_collation s r) (read_names (txt " OWNER TO ") r)
        | none ↦ elim (after (txt "GRANT ") s) [
          | some r ↦ or_else (λ g. g) (unknown s) (read_grant r)
          | none ↦ elim (after (txt "CREATE EXTENSION IF NOT EXISTS ") s) [
            | some r ↦ or_else create_extension (unknown s) (read_extension r)
            | none ↦ unknown s
          ]
        ]
      ]
    ]
  ]
]
