-- ===== src/Attractor/Feedback/Laws.antt =====
-- What the truncation and the filters of the feedback keep.
use octopusgarden.Prelude.{
  ◌+◌, ◌++◌, ◌-◌, ◌<◌, [], ap, arith, Bool, Bool-cases, codes, cut_prefix, cut_prefix_eq, drop,
  false, has_prefix, if◌then◌else◌, inl, inr, join, join-split, leb, length, List, none, Option,
  refl, some, split, suc, sym, take, Text, trim_space, true, zero, ℕ, ◌∙◌, ◌∷◌, ◌≡◌, ◌≤◌,
}
use octopusgarden.Attractor.Loop.State.{compact, full}
use octopusgarden.Attractor.Feedback.{
  build_log_marker, byte_length, cut_at_log, filter_failure_entry, filter_lines, filter_log,
  is_noise_line, log_at, preserve_tail, strip_build_noise, strip_log, utf8_length,
}
use octopusgarden.Attractor.FileParse.{newline}
use mathlib.Core.Option.{none-ne-some, some-injective}

-- What does not fit: nothing is left, or the next code point would pass the limit.
abbrev pub Overflows : ℕ → Text → Type 0
Overflows room [] = Unit
Overflows room (c ∷ rest) = room < utf8_length c

-- The longest beginning of `s` that is no longer than the limit.
pub record IsCut (limit : ℕ) (s t : Text) : Type 0 where
  pub rest : Text
  pub is_prefix : s ≡ t ++ rest
  pub fits : byte_length t ≤ limit
  pub is_longest : Overflows (limit - byte_length t) rest

-- The lines that are no noise.
abbrev pub quiet : List Text → List Text
quiet [] = []
quiet (line ∷ lines) = if is_noise_line (trim_space line) then quiet lines else line ∷ quiet lines

filter_log_after : (k i : ℕ) (lines : List Text) → k ≤ i → filter_log k i lines ≡ lines
unfolding filter_log
filter_log_after k i [] h = refl
filter_log_after k i (line ∷ lines) h =
    rw (late k i h, filter_log_after k (i + 1) lines (omega arith)) refl
  where
    late : (a b : ℕ) → a ≤ b → leb a b ≡ true
    late a b h = ground arith

early : (a b k : ℕ) → a ≡ b + suc k → leb a b ≡ false
early a b k h = ground arith

filter_log-quiet :
    (last k i : ℕ) (lines : List Text)
    → last ≡ i + k
    → filter_log last i lines ≡ quiet (take k lines) ++ drop k lines
unfolding filter_log
filter_log-quiet last zero i lines h = filter_log_after last i lines (omega arith)
filter_log-quiet last (suc k) i [] h = refl
filter_log-quiet last (suc k) i (line ∷ lines) h =
    let rest = filter_log-quiet last k (i + 1) lines (omega arith) in
    elim (Bool-cases (is_noise_line (trim_space line))) [
      | inl e ↦ rw (early last i k h, e) rest
      | inr e ↦ rw (early last i k h, e) (ap (λ r. line ∷ r) rest)
    ]

log_at_eq :
    (c : ℕ) (s before after : Text) (here : Option Text) (found : Option (Text × Text))
    → cut_prefix (c ∷ s) build_log_marker ≡ here
    → ((b a : Text) → found ≡ some (b, a) → s ≡ b ++ (build_log_marker ++ a))
    → log_at here c found ≡ some (before, after)
    → c ∷ s ≡ before ++ (build_log_marker ++ after)
unfolding log_at
log_at_eq c s before after (some rest) found e later h =
    cut_prefix_eq (c ∷ s) build_log_marker rest e
    ∙ ap (λ (x : Text × Text). x.0 ++ (build_log_marker ++ x.1))
        (some-injective ([], rest) (before, after) h)
log_at_eq c s before after none none e later h = absurd (none-ne-some _ h)
log_at_eq c s before after none (some (b, a)) e later h =
    ap (λ x. c ∷ x) (later b a refl)
    ∙ ap (λ (x : Text × Text). x.0 ++ (build_log_marker ++ x.1))
        (some-injective (c ∷ b, a) (before, after) h)

cut_at_log_eq :
    (s before after : Text)
    → cut_at_log s ≡ some (before, after)
    → s ≡ before ++ (build_log_marker ++ after)
unfolding cut_at_log
cut_at_log_eq [] before after h = absurd (none-ne-some _ h)
cut_at_log_eq (c ∷ s) before after h =
    log_at_eq c s before after (cut_prefix (c ∷ s) build_log_marker) (cut_at_log s) refl
      (λ b a. cut_at_log_eq s b a) h

-- Of a build log only noise is lost, and none of its last 50 lines; the text before the log is
-- kept.
pub strip_build_noise_lem :
    (err_msg before log_section : Text)
    → cut_at_log err_msg ≡ some (before, log_section)
    → let lines = split newline log_section in
      let head = length lines - preserve_tail in
      strip_build_noise err_msg
      ≡ before ++ (build_log_marker ++ join newline (quiet (take head lines) ++ drop head lines))
unfolding strip_build_noise strip_log
strip_build_noise_lem err_msg before log_section h =
    let lines = split newline log_section in
    ap (strip_log err_msg) h ∙ elim (Bool-cases (leb (length lines) preserve_tail)) [
      | inl e ↦ rw e (
          cut_at_log_eq err_msg before log_section h
          ∙ ap (λ x. before ++ (build_log_marker ++ x))
              (short lines (length lines - preserve_tail) (no_head (length lines) e)))
      | inr e ↦ rw e (
          ap (λ x. before ++ (build_log_marker ++ join newline x))
            (filter_log-quiet (length lines - preserve_tail) (length lines - preserve_tail) 0 lines
              (omega arith)))
    ]
  where
    no_head : (n : ℕ) → leb n preserve_tail ≡ true → n - preserve_tail ≡ 0
    no_head n e = ground arith

    short :
        (lines : List Text) (n : ℕ)
        → n ≡ 0
        → log_section
          ≡ join newline
              (quiet (take n (split newline log_section)) ++ drop n (split newline log_section))
    short lines n e = rw e (sym (join-split newline log_section))

-- The lines that are not indented.
abbrev pub summaries : List Text → List Text
summaries [] = []
summaries (line ∷ lines) =
    if has_prefix line (codes " ") then summaries lines else line ∷ summaries lines

filter_lines-summaries :
    (in_passing_step : Bool) (lines : List Text)
    → filter_lines true in_passing_step lines ≡ summaries lines
unfolding filter_lines
filter_lines-summaries in_passing_step [] = refl
filter_lines-summaries in_passing_step (line ∷ lines) =
    elim (Bool-cases (has_prefix line (codes " "))) [
      | inl e ↦ rw e (filter_lines-summaries in_passing_step lines)
      | inr e ↦ rw e (ap (λ r. line ∷ r) (filter_lines-summaries false lines))
    ]

-- Compact feedback keeps exactly the lines of a failure entry that are not indented, and full
-- feedback all of it.
pub filter_failure_entry_lem :
    (entry : Text)
    → (filter_failure_entry entry compact ≡ join newline (summaries (split newline entry)))
      × (filter_failure_entry entry full ≡ join newline (split newline entry))
unfolding filter_failure_entry
filter_failure_entry_lem entry = (
  ap (join newline) (filter_lines-summaries false (split newline entry)),
  sym (join-split newline entry),
)
