-- ===== src/Actions/Normalize.antt =====
-- packages/go/actionruntime/tools.go, normalize: the form in which spoken phrases are compared.
use nova2sonici_osapp.Common.{ℕ, List, [], ◌∷◌, ◌++◌, map, ◌==◌, if◌then◌else◌}
use nova2sonici_osapp.Common.Text.{Text, codes, contains_code, is_empty}
use nova2sonici_osapp.Actions.Types.{Host}

-- The function that normalize hands to strings.Map.
unfoldable pub plain_code : Host → ℕ → ℕ
unfolding contains_code
plain_code h r =
    if contains_code r (codes "ãáàâ")
    then b'a'
    else if contains_code r (codes "éê")
    then b'e'
    else if r == 0xED
    then b'i'
    else if contains_code r (codes "óôõ")
    then b'o'
    else if r == 0xFA
    then b'u'
    else if r == 0xE7
    then b'c'
    else if h.is_punct r
    then b' '
    else r

flush : Text → List Text → List Text
flush word rest = if is_empty word then rest else word ∷ rest

-- strings.Fields, with the word that is being read.
unfoldable pub fields_from : Host → Text → Text → List Text
unfolding flush
fields_from h word [] = flush word []
fields_from h word (c ∷ s) =
    let ended = flush word (fields_from h [] s) in
    let longer = fields_from h (word ++ c ∷ []) s in if h.is_space c then ended else longer

-- strings.Join with one blank between two words.
unfoldable pub join : List Text → Text
join [] = []
join (w ∷ []) = w
join (w ∷ v ∷ ws) = w ++ (b' ' ∷ join (v ∷ ws))

unfoldable pub normalize : Host → Text → Text
unfolding plain_code fields_from join
normalize h text = join (fields_from h [] (map (plain_code h) (h.to_lower text)))

abbrev pub quotes : Text
quotes = codes "\"'“”‘’?"
