-- ===== src/Attractor/Feedback/Tests.antt =====
-- Short messages, filtered and cut.
use octopusgarden.Prelude.{codes, cut_prefix, join, refl, some, split, Text, ◌≡◌}
use octopusgarden.Attractor.Loop.State.{compact}
use octopusgarden.Attractor.Feedback.{
  cut_at_log, filter_failure_entry, take_bytes, trim_utf8_boundary,
}

-- The cut falls into the two bytes of the second character.
cut_at_two : trim_utf8_boundary (codes "aé b") 2 ≡ codes "a"
unfolding trim_utf8_boundary take_bytes
cut_at_two = refl

abbrev message : Text
message = codes "failed\nBuild log:\nfetch x\nerror"

message_is_cut : cut_at_log message ≡ some (codes "failed", codes "fetch x\nerror")
unfolding cut_at_log cut_prefix
message_is_cut = refl

abbrev entry : Text
entry = codes "✗ login (40/100)\n  ✓ open\n  ✗ submit"

compact_entry : filter_failure_entry entry compact ≡ codes "✗ login (40/100)"
unfolding filter_failure_entry split join
compact_entry = refl
