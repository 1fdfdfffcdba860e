-- ===== src/Tags/Codes.antt =====
-- The database values of the tags: `try_from` against `as i32`.
use miningpool_observer.Prelude.{
  ◌≡◌, refl, ◌↔◌, inl, inr, some, List, [], ◌∷◌, arith, ℤ, ◌==◌, int_eq, beq→eq, Bool-cases, length,
  filter, eq_of_discrete, PartialEq,
}
use miningpool_observer.Tags.{
  TxTag, discriminant, first_match, try_from, tx_tags, BlockTag, block_discriminant, block_try_from,
  try_from_arms, block_try_from_arms,
}

-- The arm that a match takes has the matched value.
first_match_sound :
    {A : Type 0} (f : A → ℤ) (v : ℤ) (ts : List A) {t : A} → first_match f v ts ≡ some t → v ≡ f t
unfolding first_match
first_match_sound f v [] h = cc
first_match_sound f v (t ∷ ts) h = elim (Bool-cases (v == f t)) [
  | inl e ↦ ground (arith, beq→eq v (f t) e)
  | inr e ↦ first_match_sound f v ts (ground arith)
]

-- Every tag that is written to the database is read back as itself.
try_from-discriminant : (t : TxTag) → try_from (discriminant t) ≡ some t
unfolding try_from
try_from-discriminant TxTag.from_sanctioned = refl
try_from-discriminant _ = refl

try_from_sound : (v : ℤ) (t : TxTag) → try_from v ≡ some t → v ≡ discriminant t
unfolding try_from
try_from_sound v t h = first_match_sound discriminant v try_from_arms h

-- A value is read as a tag exactly when it is that tag's value, so that every other value is an
-- error.
pub try_from_iff : (v : ℤ) (t : TxTag) → (try_from v ≡ some t) ↔ (v ≡ discriminant t)
try_from_iff v t = (try_from_sound v t, λ h. rw h (try_from-discriminant t))

-- No two tags share a value.
pub discriminant_injective : (s t : TxTag) → discriminant s ≡ discriminant t → s ≡ t
discriminant_injective s t h = cc (ap-try s t h, try_from-discriminant s, try_from-discriminant t)
  where
    ap-try :
        (s t : TxTag)
        → discriminant s ≡ discriminant t
        → try_from (discriminant s) ≡ try_from (discriminant t)
    ap-try s t h = rw h

unfoldable pub TxTag-discrete : Discrete TxTag
TxTag-discrete = hlevel

instance abbrev pub tag_eq : PartialEq TxTag
tag_eq = eq_of_discrete TxTag-discrete

-- The list of all tags, which the site shows, has each tag exactly once.
tx_tags_once : (t : TxTag) → length (filter (λ u. u == t) tx_tags) ≡ 1
unfolding tx_tags TxTag-discrete
tx_tags_once TxTag.from_sanctioned = refl
tx_tags_once _ = refl

-- Every block tag that is written to the database is read back as itself, and no other value is
-- read as a block tag.
block_try_from_iff :
    (v : ℤ) (t : BlockTag) → (block_try_from v ≡ some t) ↔ (v ≡ block_discriminant t)
unfolding block_try_from
block_try_from_iff v t =
    (first_match_sound block_discriminant v block_try_from_arms, λ h. rw h (back t))
  where
    back : (t : BlockTag) → block_try_from (block_discriminant t) ≡ some t
    back BlockTag.sigops_limit_close = refl
    back BlockTag.taproot_signaling = refl
