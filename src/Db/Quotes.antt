-- ===== src/Db/Quotes.antt =====
-- `valToString` in db_manager.cpp: the quotes around a printed text.
use ki_han_server_distribute.Base.{
  ℕ, suc, ◌+◌, ◌-◌, true, some, [], ◌∷◌, ◌++◌, ◌≡◌, refl, ap, arith, length, length-append, take,
  leb,
}
use ki_han_server_distribute.Base.Bytes.{Bytes}
use ki_han_server_distribute.Db.{strip_quotes, is_quote, get_last?}

abbrev pub quoted : Bytes → Bytes
quoted s = b'"' ∷ (s ++ b'"' ∷ [])

get_last?-snoc : (s : Bytes) (b : ℕ) → get_last? (s ++ b ∷ []) ≡ some b
get_last?-snoc [] b = refl
get_last?-snoc (x ∷ []) b = refl
get_last?-snoc (x ∷ y ∷ s) b = get_last?-snoc (y ∷ s) b

take-snoc : (s : Bytes) (b : ℕ) → take (length s) (s ++ b ∷ []) ≡ s
take-snoc [] b = refl
take-snoc (x ∷ s) b = ap (◌∷◌ x) (take-snoc s b)

get_last?-quoted : (s : Bytes) → get_last? (quoted s) ≡ some b'"'
get_last?-quoted [] = refl
get_last?-quoted (x ∷ s) = get_last?-snoc (x ∷ s) b'"'

-- A text that the connector prints in quotes is read as the text, whatever it holds.
pub strip_quotes-quoted : (s : Bytes) → strip_quotes (quoted s) ≡ s
unfolding strip_quotes is_quote
strip_quotes-quoted s =
    let n : length (s ++ b'"' ∷ []) ≡ length s + 1 = length-append s (b'"' ∷ []) in
    let long : leb 2 (suc (length (s ++ b'"' ∷ []))) ≡ true = rw n (ground arith) in
    let middle : suc (length (s ++ b'"' ∷ [])) - 2 ≡ length s = rw n (omega arith) in
    rw (get_last?-quoted s, long, middle, take-snoc s b'"') refl
