-- ===== src/Tags/Tests.antt =====
-- Small inputs.
use miningpool_observer.Prelude.{◌≡◌, refl, none, some, pos, negsuc}
use miningpool_observer.Tags.{TxTag, try_from}

-- 3100 is deprecated.
try_from_deprecated : try_from (pos 3100) ≡ none
unfolding try_from
try_from_deprecated = refl

try_from_negative : try_from (negsuc 0) ≡ none
unfolding try_from
try_from_negative = refl

try_from_young : try_from (pos 3110) ≡ some TxTag.young
unfolding try_from
try_from_young = refl
