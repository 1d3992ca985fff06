-- ===== src/Sql/ReaderParts.antt =====
-- What the parts of the statements that provisioning executes say to the reader.
use homelab_db_provisioner.Prelude.{
  ◌≡◌, refl, ap, ℕ, true, some, [], ◌∷◌, ◌++◌, Text, txt, starts_with, cut, length, take, drop, ◌-◌,
  free_of, arith, append_assoc, append-nil, length-append, subst,
}
use homelab_db_provisioner.Prelude.Dict.{text_eq_refl}
use homelab_db_provisioner.Sql.Escape.{quote_identifier, escape_string}
use homelab_db_provisioner.Sql.Literal.{scan_string, scan_string-escape_string}
use homelab_db_provisioner.Sql.Reader.{
  Statement, quote, after, before, read_name, read_login, read_names, without_last, is_words,
  is_word_char, read_grant,
}

cut-free :
    (a rest : Text) → free_of quote a ≡ true → cut quote (a ++ (quote ∷ rest)) ≡ (a, some rest)
unfolding cut free_of
cut-free [] rest h = ground arith
cut-free (c ∷ a) rest h = ground (arith, cut-free a rest)

starts_with-append : (p s : Text) → starts_with p (p ++ s) ≡ true
unfolding starts_with
starts_with-append [] s = refl
starts_with-append (c ∷ p) s = ground (arith, starts_with-append p s)

drop-length : (p s : Text) → drop (length p) (p ++ s) ≡ s
drop-length [] s = refl
drop-length (c ∷ p) s = drop-length p s

-- A quoted name without a quotation mark reads back.
read_name-quote_identifier :
    (name rest : Text)
    → free_of quote name ≡ true
    → read_name (quote_identifier name ++ rest) ≡ some (name, rest)
unfolding read_name quote_identifier after starts_with txt
read_name-quote_identifier name rest h =
    rw (append_assoc name (quote ∷ []) rest, cut-free name rest h) refl

-- The word that is there is taken off.
after-append : (word s : Text) → after word (word ++ s) ≡ some s
unfolding after
after-append word s = rw (starts_with-append word s, drop-length word s) refl

pub read_login_lem :
    (role password : Text)
    → free_of quote role ≡ true
    → read_login
        (quote_identifier role ++ (txt " WITH PASSWORD '" ++ (escape_string password ++ txt "'")))
      ≡ some (role, password)
unfolding read_login starts_with scan_string escape_string txt
read_login_lem role password h =
    rw
      (
        read_name-quote_identifier role _ h,
        after-append (txt " WITH PASSWORD '") (escape_string password ++ txt "'"),
        scan_string-escape_string password [] refl,
      )
      refl

pub read_name-end :
    (name : Text) → free_of quote name ≡ true → read_name (quote_identifier name) ≡ some (name, [])
read_name-end name h =
    subst (λ s. read_name s ≡ some (name, [])) (append-nil (quote_identifier name))
      (read_name-quote_identifier name [] h)

pub read_names_lem :
    (word first second : Text)
    → free_of quote first ≡ true
    → free_of quote second ≡ true
    → read_names word (quote_identifier first ++ (word ++ quote_identifier second))
      ≡ some (first, second)
unfolding read_names
read_names_lem word first second h k =
    rw (read_name-quote_identifier first _ h, after-append word _, read_name-end second k) refl

free_of-append :
    (c : ℕ) (a b : Text) → free_of c a ≡ true → free_of c b ≡ true → free_of c (a ++ b) ≡ true
unfolding free_of
free_of-append c [] b h k = k
free_of-append c (d ∷ a) b h k = ground (arith, free_of-append c a b)

take-length : (a b : Text) → take (length a) (a ++ b) ≡ a
take-length [] b = refl
take-length (c ∷ a) b = ap (λ s. c ∷ s) (take-length a b)

without_last-append : (a b : Text) → without_last (length b) (a ++ b) ≡ a
unfolding without_last
without_last-append a b =
    rw (length-append a b) (subst (λ n. take n (a ++ b) ≡ a) (omega arith) (take-length a b))

drop-append : (a b : Text) → drop (length (a ++ b) - length b) (a ++ b) ≡ b
drop-append a b =
    rw (length-append a b) (subst (λ n. drop n (a ++ b) ≡ b) (omega arith) (drop-length a b))

-- The word that stands last is taken off.
before-append : (a word : Text) → before word (a ++ word) ≡ some a
unfolding before
before-append a word = rw (drop-append a word, text_eq_refl word, without_last-append a word) refl

cut-quoted :
    (a name rest : Text)
    → free_of quote a ≡ true
    → (cut quote (a ++ (quote_identifier name ++ rest))).0 ≡ a
unfolding quote_identifier txt
cut-quoted a name rest h = rw (cut-free a (name ++ (quote ∷ []) ++ rest) h) refl

is_words-free : (s : Text) → is_words s ≡ true → free_of quote s ≡ true
unfolding is_words is_word_char free_of
is_words-free [] h = refl
is_words-free (c ∷ s) h = ground (arith, is_words-free s)

on_database-free : free_of quote (txt " ON DATABASE ") ≡ true
unfolding free_of txt
on_database-free = refl

pub read_grant_lem :
    (granted database role : Text)
    → is_words granted ≡ true
    → free_of quote database ≡ true
    → free_of quote role ≡ true
    → read_grant (
        granted
        ++ (txt " ON DATABASE "
            ++ (quote_identifier database ++ (txt " TO " ++ quote_identifier role))))
      ≡ some (Statement.grant granted database role)
unfolding read_grant
read_grant_lem granted database role g h k =
    let head : Text = granted ++ txt " ON DATABASE " in
    let tail : Text = txt " TO " ++ quote_identifier role in
    let behind : Text = quote_identifier database ++ tail in
    rw
      (
        ← append_assoc granted (txt " ON DATABASE ") behind,
        cut-quoted head database tail
            (free_of-append quote granted _ (is_words-free granted g) on_database-free),
        drop-length head behind,
        before-append granted (txt " ON DATABASE "),
        read_names_lem (txt " TO ") database role h k,
        g,
      )
      refl
