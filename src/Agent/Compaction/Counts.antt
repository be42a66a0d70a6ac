-- ===== src/Agent/Compaction/Counts.antt =====
-- What compaction keeps: no event is lost from the counts, and the errors are bounded.
use sisyphus_harness.Prelude.{
  ℕ, zero, suc, ◌+◌, ◌-◌, ◌≤◌, String, ◌≡◌, refl, ap, Bool, Option, List, [], Option-cases, ◌∷◌,
  ◌++◌, arith, length, length-append, take, drop, is_some, count_if, inl, inr, if◌then◌else◌, ltb,
}
use sisyphus_harness.Agent.{Event}
use sisyphus_harness.Agent.Compaction.{
  Summary, previous, count_tool, summarize, summarize_all, last, but_last, compact_events,
  event_tool,
}

take-drop {ℓ} : {A : Type ℓ} (n : ℕ) (xs : List A) → take n xs ++ drop n xs ≡ xs
take-drop zero xs = refl
take-drop (suc n) [] = refl
take-drop (suc n) (x ∷ xs) = ap (λ l. x ∷ l) (take-drop n xs)

length-drop {ℓ} : {A : Type ℓ} (n : ℕ) (xs : List A) → length (drop n xs) ≡ length xs - n
length-drop zero xs = omega arith
length-drop (suc n) [] = omega arith
length-drop (suc n) (x ∷ xs) = omega (arith, length-drop n xs)

-- How often tools were called, by all names.
abbrev pub total_count : List (String × ℕ) → ℕ
total_count [] = 0
total_count ((k, n) ∷ rest) = n + total_count rest

abbrev pub calls_tool : Event → Bool
calls_tool e = is_some (event_tool e.kind)

total-count_tool :
    (name : String) (counts : List (String × ℕ))
    → total_count (count_tool name counts) ≡ suc (total_count counts)
unfolding count_tool
total-count_tool name [] = omega arith
total-count_tool name ((k, n) ∷ rest) = ground (arith, total-count_tool name rest)

total-summarize_all :
    (events : List Event) (s : Summary)
    → total_count (summarize_all events s).tool_counts
      ≡ total_count s.tool_counts + count_if calls_tool events
unfolding summarize_all summarize
total-summarize_all [] s = omega arith
total-summarize_all (e ∷ rest) s = elim (Option-cases (event_tool e.kind)) [
  | inl other ↦ ground (arith, total-summarize_all rest (summarize e s))
  | inr (name, k) ↦
      ground (arith, total-summarize_all rest (summarize e s), total-count_tool name s.tool_counts)
]

count-summarize_all :
    (events : List Event) (s : Summary)
    → (summarize_all events s).compacted_event_count ≡ s.compacted_event_count
unfolding summarize_all summarize
count-summarize_all [] s = refl
count-summarize_all (e ∷ rest) s = count-summarize_all rest (summarize e s)

count_if-append :
    (p : Event → Bool) (xs ys : List Event) → count_if p (xs ++ ys) ≡ count_if p xs + count_if p ys
count_if-append p [] ys = omega arith
count_if-append p (x ∷ xs) ys = ground (arith, count_if-append p xs ys)

-- The two slices make the list.
but_last-last {ℓ} : {A : Type ℓ} (n : ℕ) (xs : List A) → but_last n xs ++ last n xs ≡ xs
unfolding but_last last
but_last-last zero xs = refl
but_last-last (suc n) xs = take-drop (length xs - suc n) xs

-- How many events stay: all of them where none are to be kept, and else as many as are to be kept, or
-- all of them.
abbrev pub kept_count : ℕ → ℕ → ℕ
kept_count zero total = total
kept_count (suc n) total = if ltb total (suc n) then total else suc n

length-last-kept_count : (n : ℕ) (xs : List Event) → length (last n xs) ≡ kept_count n (length xs)
unfolding last
length-last-kept_count zero xs = refl
length-last-kept_count (suc n) xs = ground (arith, length-drop (length xs - suc n) xs)

at_most_five : (xs : List String) → length (last 5 xs) ≤ 5
unfolding last
at_most_five xs = omega (arith, length-drop (length xs - 5) xs)

-- Compaction splits the transcript: the events that stay are its last ones, as many as are to be kept
-- or all of them, and all of them too where none are to be kept, as for a slice from -0; what goes is
-- counted, so that the summary's count and the events that stay make as many as before, and so do the
-- calls of tools; the errors that are kept are five at most.
pub compact_events_lem :
    (summary : Option Summary) (events : List Event) (keep_recent : ℕ)
    → (but_last keep_recent events ++ (compact_events summary events keep_recent).1 ≡ events)
      × (length (compact_events summary events keep_recent).1
          ≡ kept_count keep_recent (length events))
      × ((compact_events summary events keep_recent).0.compacted_event_count
            + length (compact_events summary events keep_recent).1
          ≡ (previous summary).compacted_event_count + length events)
      × (total_count (compact_events summary events keep_recent).0.tool_counts
            + count_if calls_tool (compact_events summary events keep_recent).1
          ≡ total_count (previous summary).tool_counts + count_if calls_tool events)
      × (length (compact_events summary events keep_recent).0.recent_errors ≤ 5)
unfolding compact_events
compact_events_lem summary events keep_recent =
    let gone = but_last keep_recent events in
    let kept = last keep_recent events in
    let s = summarize_all gone (previous summary) in
    let split = but_last-last keep_recent events in
    let lengths = ap length split in
    let counts = ap (count_if calls_tool) split in
    (
      split,
      length-last-kept_count keep_recent events,
      omega (arith, lengths, length-append gone kept, count-summarize_all gone (previous summary)),
      omega (
        arith,
        counts,
        count_if-append calls_tool gone kept,
        total-summarize_all gone (previous summary),
      ),
      at_most_five s.recent_errors,
    )
