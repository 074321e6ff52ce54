-- ===== src/BusDev/Strings.antt =====
-- rumpxendev/busdev.c: the two strings of a request for a watch.
use rumpuser_xen.Prelude.{
  ℕ, ◌≡◌, refl, ap, ◌∙◌, false, none, some, List, [], ◌∷◌, ◌++◌, ◌==◌, All, take, drop,
}
use rumpuser_xen.BusDev.{
  Proto, past, watch_message_parse_string, with_token, with_path, watch_message_parse,
}

-- No byte is NUL.
abbrev pub IsString : List ℕ → Type 0
IsString s = All (λ x. (x == 0) ≡ false) s

parse_one :
    (s rest : List ℕ) → IsString s → watch_message_parse_string (s ++ (0 ∷ rest)) ≡ some (s, rest)
unfolding watch_message_parse_string
parse_one [] rest h = refl
parse_one (x ∷ s) rest (h, hs) = rw h (ap (past x) (parse_one s rest hs))

parse_none : (s : List ℕ) → IsString s → watch_message_parse_string s ≡ none
unfolding watch_message_parse_string
parse_none [] h = refl
parse_none (x ∷ s) (h, hs) = rw h (ap (past x) (parse_none s hs))

-- A payload that is two strings with their NULs, and maybe more behind them, is read back as the two.
pub watch_message_parse-strings :
    (p : Proto) (msg path token rest : List ℕ)
    → IsString path
    → IsString token
    → take (p.len_of msg) (drop p.sizeof_msg msg) ≡ path ++ (0 ∷ (token ++ (0 ∷ rest)))
    → watch_message_parse p msg ≡ some (path, token)
unfolding watch_message_parse
watch_message_parse-strings p msg path token rest a b e =
    ap (λ t. with_path (watch_message_parse_string t)) e
    ∙ ap with_path (parse_one path (token ++ (0 ∷ rest)) a)
    ∙ ap (with_token path) (parse_one token rest b)

-- One that ends before the second NUL is refused.
pub watch_message_parse-cut :
    (p : Proto) (msg path token : List ℕ)
    → IsString path
    → IsString token
    → take (p.len_of msg) (drop p.sizeof_msg msg) ≡ path ++ (0 ∷ token)
    → watch_message_parse p msg ≡ none
unfolding watch_message_parse
watch_message_parse-cut p msg path token a b e =
    ap (λ t. with_path (watch_message_parse_string t)) e
    ∙ ap with_path (parse_one path token a)
    ∙ ap (with_token path) (parse_none token b)
