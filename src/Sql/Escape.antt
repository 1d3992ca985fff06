-- ===== src/Sql/Escape.antt =====
-- `quoteIdentifier` and `escapeString` of main.go.
use homelab_db_provisioner.Prelude.{ℕ, [], ◌∷◌, ◌++◌, Text, txt, ◌==◌, if◌then◌else◌}

-- The character '.
abbrev pub apostrophe : ℕ
apostrophe = 39

unfoldable pub quote_identifier : Text → Text
quote_identifier s = txt "\"" ++ (s ++ txt "\"")

-- The loop appends one or two characters to the result for each character.
unfoldable pub escape_string : Text → Text
escape_string [] = []
escape_string (c ∷ s) =
    let rest = escape_string s in
    if c == apostrophe then apostrophe ∷ (apostrophe ∷ rest) else c ∷ rest
