-- ===== src/Web/Util.antt =====
-- web/src/util.rs: the parsers of the parts of a URL, and the functions that the templates call.
pub mod Numbers
pub mod Durations
use miningpool_observer.Prelude.{
  ℕ, zero, suc, ◌+◌, ◌-◌, ◌*◌, ◌/◌, ◌%◌, ◌^◌, Bool, true, false, not, ◌&&◌, ◌||◌, Option, none,
  some, List, [], ◌∷◌, ◌++◌, length, ltb, leb, eqb, ℤ, pos, negsuc, if◌then◌else◌,
}
use miningpool_observer.Prelude.Outcomes.{Outcome, returned, failed, ok_or, ascii, ◌>>=◌}
use miningpool_observer.Bitcoin.{Bytes, Text}
use miningpool_observer.Tags.{TxTag, BlockTag, try_from, block_try_from}

-- The errors of the web server, by their status: 404 and 500.
pub data HttpError : Type 0 where
  not_found internal_server_error : HttpError

-- `str::parse::<u32>`: digits behind an optional `+`, with a check for overflow.
unfoldable pub parse_digits : ℕ → Text → Option ℕ
parse_digits acc [] = some acc
parse_digits acc (c ∷ cs) =
    let next = acc * 10 + (c - 48) in
    let rest = parse_digits next cs in
    if leb 48 c && leb c 57 && ltb next (2 ^ 32) then rest else none

unfoldable pub parse_u32 : Text → Option ℕ
unfolding parse_digits
parse_u32 [] = none
parse_u32 (c ∷ []) = parse_digits 0 (c ∷ [])
parse_u32 (c ∷ d ∷ cs) = if eqb c 43 then parse_digits 0 (d ∷ cs) else parse_digits 0 (c ∷ d ∷ cs)

unfoldable pub parse_uint : Text → Outcome HttpError ℕ
unfolding parse_u32
parse_uint uint_str = ok_or not_found (parse_u32 uint_str)

-- `starts_with`.
abbrev pub starts_with : Text → Text → Bool
starts_with [] text = true
starts_with (p ∷ ps) [] = false
starts_with (p ∷ ps) (c ∷ cs) = eqb p c && starts_with ps cs

-- `hex::decode` of the hex crate is given.
module _ (hex_decode : Text → Option Bytes) where
  unfoldable pub parse_block_hash_str : Text → Outcome HttpError Bytes
  parse_block_hash_str hash_str =
      if not (eqb (length hash_str) 64) || not (starts_with (ascii "000000") hash_str)
      then failed not_found
      else ok_or not_found (hex_decode hash_str)

  unfoldable pub parse_txid_str : Text → Outcome HttpError Bytes
  parse_txid_str txid_str =
      if not (eqb (length txid_str) 64)
      then failed not_found
      else ok_or not_found (hex_decode txid_str)

-- Why a function of the templates fails.
pub data TemplateError : Type 0 where
  no_parameter not_parsed no_tag : TemplateError

-- The argument of a template function: `none` if there is none, `some none` if it is no `i32`.
abbrev pub argument : Option (Option ℤ) → Outcome TemplateError ℤ
argument arg = ok_or no_parameter arg >>= ok_or not_parsed

unfoldable pub tx_tag_id_to_tag : Option (Option ℤ) → Outcome TemplateError TxTag
tx_tag_id_to_tag arg = argument arg >>= λ v. ok_or no_tag (try_from v)

unfoldable pub block_tag_id_to_tag : Option (Option ℤ) → Outcome TemplateError BlockTag
block_tag_id_to_tag arg = argument arg >>= λ v. ok_or no_tag (block_try_from v)

pub record Duration : Type 0 where
  pub days : ℕ
  pub hours : ℕ
  pub minutes : ℕ
  pub seconds : ℕ

unfoldable pub duration_of : ℕ → Duration
duration_of v = record {
  days = v / 60 / 60 / 24;
  hours = v / 60 / 60 % 24;
  minutes = v / 60 % 60;
  seconds = v % 60;
}

module _ (show : ℕ → Text) where
  -- The four formats.
  unfoldable pub format_duration : Duration → Text
  format_duration d =
      let with_seconds = show d.seconds ++ ascii "s" in
      let with_minutes = show d.minutes ++ ascii "m " ++ with_seconds in
      let with_hours = show d.hours ++ ascii "h " ++ with_minutes in
      if ltb 0 d.days
      then show d.days ++ ascii "d " ++ with_hours
      else if ltb 0 d.hours
      then with_hours
      else if ltb 0 d.minutes
      then with_minutes
      else with_seconds

  unfoldable pub seconds_to_duration : Option (Option ℤ) → Outcome TemplateError Text
  unfolding duration_of format_duration
  seconds_to_duration arg = argument arg >>= λ v. elim v [
    | negsuc n ↦ returned (ascii "Unknown")
    | pos n ↦ returned (format_duration (duration_of n))
  ]
