-- ===== src/Web/Handlers/Requests.antt =====
-- How the pages answer to what a visitor may put into a URL.
use miningpool_observer.Prelude.{
  ◌≡◌, refl, true, Bool, not, ◌||◌, inl, inr, Option, some, length, eqb, is_some, Option-cases,
  arith,
}
use miningpool_observer.Prelude.Outcomes.{failed, ascii}
use miningpool_observer.Bitcoin.{Bytes, Text}
use miningpool_observer.Web.Util.{not_found, parse_uint, starts_with, parse_block_hash_str}
use miningpool_observer.Web.Handlers.{
  Server, templates_and_blocks, single_template_and_block, missing_page, missing_page_rss,
  conflicting_page, single_conflicting_page,
}

-- A text that is not 64 hexadecimal digits with six zeros in front.
abbrev pub is_bad_hash : (Text → Option Bytes) → Text → Bool
is_bad_hash hex_decode text =
    not (eqb (length text) 64)
    || not (starts_with (ascii "000000") text)
    || not (is_some (hex_decode text))

parse_block_hash_str-bad :
    (hex_decode : Text → Option Bytes) (text : Text)
    → is_bad_hash hex_decode text ≡ true
    → parse_block_hash_str hex_decode text ≡ failed not_found
unfolding parse_block_hash_str
parse_block_hash_str-bad hex_decode text h = elim (Option-cases (hex_decode text)) [
  | inl e ↦ ground arith
  | inr (hash, e) ↦ ground arith
]

module _ {F32 F64 Time : Type 0} (s : Server F32 F64 Time) where
  -- A page number that is no number is a 404 on each of the pages with page numbers, whatever the
  -- pool and the database do.
  bad_page-not_found :
      (query_page : Text) (query_pool : Option Text)
      → parse_uint query_page ≡ failed not_found
      → (templates_and_blocks s (some query_page) query_pool ≡ failed not_found)
        × (missing_page s (some query_page) ≡ failed not_found)
        × (missing_page_rss s (some query_page) ≡ failed not_found)
        × (conflicting_page s (some query_page) ≡ failed not_found)
  unfolding templates_and_blocks missing_page missing_page_rss conflicting_page
  bad_page-not_found query_page query_pool h = (rw h refl, rw h refl, rw h refl, rw h refl)

  -- A text in the place of a block's hash that is not 64 hexadecimal digits with six zeros in front
  -- is a 404 on both pages of a block, whatever the pool and the database do.
  bad_hash-not_found :
      (text : Text)
      → is_bad_hash s.hex_decode text ≡ true
      → (single_template_and_block s text ≡ failed not_found)
        × (single_conflicting_page s text ≡ failed not_found)
  unfolding single_template_and_block single_conflicting_page
  bad_hash-not_found text h =
      let bad = parse_block_hash_str-bad s.hex_decode text h in (rw bad refl, rw bad refl)
