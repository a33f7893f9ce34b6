-- ===== src/Agent/Loop/Batch/Schedule.antt =====
-- Where the loops of a batch stand: what holds whenever the code waits for a tool.
use anonka.Prelude.{
  get_elem?, ℕ, suc, ◌+◌, ◌-◌, ◌≤◌, ◌<◌, ◌≡◌, refl, sym, ap, ◌∙◌, Bool, true, false, ◌||◌, List, [],
  ◌∷◌, Option, none, some, leb, length, drop, length-drop, arith, Bool-cases, ◌⊎◌, inl, inr,
}
use mathlib.Core.Path.{subst}
use anonka.Agent.Tools.Registry.{ToolRegistry}
use anonka.Agent.Loop.Batch.{
  ToolPlan, Results, BatchState, has_index, is_read, read_indexes, advance, start_reads, write,
  blocked_result, tool_concurrency_limit,
}
use anonka.Agent.Loop.Batch.Indexes.{
  range_from, length-range_from, has_index-range_from, take-range_from, drop-range_from, Distinct,
  range_from-Distinct, get_elem?-drop, drop-cons, drop-drop, read_indexes-range_from,
  length-read_indexes, read_indexes-is_read,
}

abbrev pub is_none : {A : Type 0} → Option A → Bool
is_none none = true
is_none (some a) = false

module _ {P : Type 0} (registry : ToolRegistry) (plans : List (ToolPlan P)) where
  -- At `j` stands a read that was let through.
  abbrev pub Read : ℕ → Type 0
  Read j = (p : ToolPlan P) × (get_elem? plans j ≡ some p) × (is_read registry p ≡ true)

  -- At `j` stands an action that was let through.
  abbrev pub Action : ℕ → Type 0
  Action j =
      (p : ToolPlan P) × (get_elem? plans j ≡ some p)
      × (is_read registry p ≡ false)
      × (p.blocked ≡ false)

module _ {P D : Type 0} (registry : ToolRegistry) (plans : List (ToolPlan P)) where
  -- Below `edge` a plan has been started; it has its result unless it is running. From `edge` on none
  -- has, and those up to the cursor are queued reads.
  pub record Holds (s : BatchState P D) : Type 0 where
    pub edge : ℕ
    pub ahead : edge + length s.read_queue ≡ s.cursor
    pub queued : s.read_queue ≡ range_from edge (length s.read_queue)
    pub within : s.cursor ≤ length plans
    pub rest : s.remaining ≡ drop s.cursor plans
    pub waiting : (j : ℕ) → is_none (s.exec_results j) ≡ (has_index s.running j || leb edge j)
    pub started : (j : ℕ) → has_index s.running j ≡ true → j < edge
    pub distinct : Distinct s.running
    pub few : length s.running ≤ tool_concurrency_limit
    pub full : (length s.read_queue ≡ 0) ⊎ (length s.running ≡ tool_concurrency_limit)
    pub idle : length s.running ≡ 0 → length s.remaining ≡ 0
    pub reads : (j : ℕ) → edge ≤ j → j < s.cursor → Read registry plans j
    pub alone :
        (j : ℕ)
        → has_index s.running j ≡ true
        → Read registry plans j
          ⊎ (Action registry plans j
              × (s.running ≡ j ∷ [])
              × (length s.read_queue ≡ 0)
              × (edge ≡ suc j))

  -- Where the outer loop stands: the plans below the cursor have their results, the others none.
  pub record Between (cursor : ℕ) (ps : List (ToolPlan P)) (results : Results D) : Type 0 where
    pub within : cursor ≤ length plans
    pub rest : ps ≡ drop cursor plans
    pub waiting : (j : ℕ) → is_none (results j) ≡ leb cursor j

  -- `t` reads are started, and `r` are queued.
  ranges-Holds :
      (cursor t r : ℕ) (ps : List (ToolPlan P)) (results : Results D)
      → Between cursor ps results
      → 0 < t
      → t ≤ tool_concurrency_limit
      → (r ≡ 0) ⊎ (t ≡ tool_concurrency_limit)
      → t + r ≤ length ps
      → ((k : ℕ) → k < t + r → Read registry ps k)
      → Holds (record {
        cursor = cursor + (t + r);
        remaining = drop (t + r) ps;
        read_queue = range_from (cursor + t) r;
        running = range_from cursor t;
        exec_results = results;
      })
  ranges-Holds cursor t r ps results b some_read few full fits are_reads = record {
    edge = cursor + t;
    ahead = omega (arith, length-range_from (cursor + t) r);
    queued = rw (length-range_from (cursor + t) r) refl;
    within = omega (arith, fits, b.within, ap length b.rest ∙ length-drop cursor plans);
    rest = ap (drop (t + r)) b.rest ∙ drop-drop cursor (t + r) plans;
    waiting = λ j. rw (b.waiting j) (ground (arith, has_index-range_from cursor t j));
    started = λ j h. ground (arith, has_index-range_from cursor t j);
    distinct = range_from-Distinct cursor t;
    few = rw (length-range_from cursor t) few;
    full = rw (length-range_from (cursor + t) r) (rw (length-range_from cursor t) full);
    idle = λ e. absurd (omega (arith, e, length-range_from cursor t));
    reads = λ j h k. read_at j (omega (arith, h)) (omega (arith, k));
    alone = λ j h. inl (
        read_at j (ground (arith, has_index-range_from cursor t j))
          (ground (arith, has_index-range_from cursor t j)));
  }
    where
      read_at : (j : ℕ) → cursor ≤ j → j < cursor + (t + r) → Read registry plans j
      read_at j h k =
          let (p, at, reads) = are_reads (j - cursor) (omega (arith, h, k)) in
          let e : cursor + (j - cursor) ≡ j = omega (arith, h) in
          (
            p,
            ap (λ i. get_elem? plans i) (sym e)
                ∙ sym (get_elem?-drop cursor (j - cursor) plans)
                ∙ ap (λ xs. get_elem? xs (j - cursor)) (sym b.rest)
                ∙ at,
            reads,
          )

  start_range-Holds :
      (cursor n : ℕ) (ps : List (ToolPlan P)) (results : Results D)
      → Between cursor ps results
      → 0 < n
      → n ≤ length ps
      → ((k : ℕ) → k < n → Read registry ps k)
      → Holds (start_reads cursor ps (range_from cursor n) results)
  start_range-Holds cursor n ps results b some_read fits are_reads =
      let t : ℕ = n - (n - 3) in
      let r : ℕ = n - 3 in
      let whole : t + r ≡ n = omega arith in
      rw (length-range_from cursor n) (
        rw (take-range_from 3 cursor n) (
          rw (drop-range_from 3 cursor n) (
            subst
              (λ m. Holds (record {
                cursor = cursor + m;
                remaining = drop m ps;
                read_queue = range_from (cursor + t) r;
                running = range_from cursor t;
                exec_results = results;
              }))
              whole
              (ranges-Holds cursor t r ps results b (omega arith) (omega arith) (ground arith)
                (omega (arith, fits)) (λ k h. are_reads k (omega (arith, h)))))))

  start_reads-Holds :
      (cursor : ℕ) (ps : List (ToolPlan P)) (results : Results D)
      → Between cursor ps results
      → 0 < length (read_indexes registry cursor ps)
      → Holds (start_reads cursor ps (read_indexes registry cursor ps) results)
  start_reads-Holds cursor ps results b some_read =
      subst (λ reads. Holds (start_reads cursor ps reads results))
        (sym (read_indexes-range_from registry cursor ps))
        (start_range-Holds cursor (length (read_indexes registry cursor ps)) ps results b some_read
          (length-read_indexes registry cursor ps) (λ k. read_indexes-is_read registry cursor k ps))

  -- One action is started.
  start_action-Holds :
      (cursor : ℕ) (p : ToolPlan P) (ps : List (ToolPlan P)) (results : Results D)
      → Between cursor (p ∷ ps) results
      → is_read registry p ≡ false
      → p.blocked ≡ false
      → Holds (record {
        cursor = suc cursor;
        remaining = ps;
        read_queue = [];
        running = cursor ∷ [];
        exec_results = results;
      })
  start_action-Holds cursor p ps results b action allowed =
      let (at, rest, within) = drop-cons cursor plans b.rest in
      record {
        edge = suc cursor;
        ahead = omega arith;
        queued = refl;
        within = within;
        rest = rest;
        waiting = λ j. rw (b.waiting j) (ground arith);
        started = λ j h. ground arith;
        distinct = (refl, tt);
        few = omega arith;
        full = inl refl;
        idle = λ e. absurd (omega (arith, e));
        reads = λ j h k. absurd (omega (arith, h, k));
        alone = λ j h.
            let same : cursor ≡ j = ground arith in
            inr (
              (p, ap (get_elem? plans) (sym same) ∙ at, action, allowed),
              ap (λ i. i ∷ []) same,
              refl,
              ap suc same,
            );
      }

  pub advance-Holds :
      (cursor : ℕ) (ps : List (ToolPlan P)) (results : Results D)
      → Between cursor ps results
      → Holds (advance registry cursor ps results)
  unfolding advance
  advance-Holds cursor [] results b = record {
    edge = cursor;
    ahead = omega arith;
    queued = refl;
    within = b.within;
    rest = b.rest;
    waiting = b.waiting;
    started = λ j h. cc;
    distinct = tt;
    few = omega arith;
    full = inl refl;
    idle = λ _. refl;
    reads = λ j h k. absurd (omega (arith, h, k));
    alone = λ j h. cc;
  }
  advance-Holds cursor (p ∷ ps) results b = elim (Bool-cases (is_read registry p)) [
    | inl reads ↦
        rw (reads, advance)
          (rw reads at
            (start_reads-Holds cursor (p ∷ ps) results b (rw (reads, read_indexes) (omega arith))))
    | inr other ↦ elim (Bool-cases p.blocked) [
      | inl blocked ↦
          rw (other, advance)
            (rw blocked (
              advance-Holds (suc cursor) ps (write cursor (blocked_result p) results) (record {
                within = (drop-cons cursor plans b.rest).2;
                rest = (drop-cons cursor plans b.rest).1;
                waiting = λ j. ground (arith, b.waiting j);
              })))
      | inr allowed ↦
          rw (other, advance) (rw allowed (start_action-Holds cursor p ps results b other allowed))
    ]
  ]
