-- ===== src/Agent/Loop/Results/Discovery.antt =====
-- What `tool_search` adds to the tools that the model is offered.
use anonka.Prelude.{
  ℕ, suc, ◌+◌, ◌≤◌, ◌<◌, ◌≡◌, refl, sym, ap, ◌∙◌, true, false, not, ◌||◌, List, [], ◌∷◌, ◌++◌,
  Option, none, some, Text, text_eq, text_eq_iff, text_eq_refl, length, ltb→lt, arith, Bool-cases,
  Option-cases, ◌⊎◌, inl, inr, All, All-append, length-append,
}
use anonka.Prelude.Dicts.{contains}
use anonka.Agent.Loop.Batch.{ToolPlan, ToolExecResult, Results}
use anonka.Agent.Loop.Batch.Schedule.{is_none}
use anonka.Agent.Loop.Results.{
  Tool, Injection, Injected, SearchData, names, has_name, has_room, inject_tool, inject_all,
  inject_into, discovered_by, inject_from, inject_discovered_tools,
}
use mathlib.Core.List.{append-nil, append_assoc}

-- A tool that may be offered: it has a name, and not an excluded one.
abbrev pub Allowed : {A : Type 0} → List Text → Tool A → Type 0
Allowed excluded tool = (has_name tool.name ≡ true) × (contains excluded tool.name ≡ false)

-- The number of the tools that `m` leaves room for, with `n` already there.
abbrev pub Within : Option ℕ → ℕ → ℕ → Type 0
Within none n total = Unit {0}
Within (some m) n total = (total ≤ m) ⊎ (total ≡ n)

nothing_added : (m : Option ℕ) (n : ℕ) → Within m n n
nothing_added none n = tt
nothing_added (some m) n = inr refl

-- No two tools have one name.
abbrev pub Distinct : {A : Type 0} → List (Tool A) → Type 0
Distinct [] = Unit {0}
Distinct (t ∷ tools) = (contains (names tools) t.name ≡ false) × Distinct tools

module _ {A : Type 0} where
  contains-snoc :
      (tools : List (Tool A)) (t : Tool A) (name : Text)
      → contains (names (tools ++ t ∷ [])) name
        ≡ (contains (names tools) name || text_eq t.name name)
  unfolding contains
  contains-snoc [] t name = ground arith
  contains-snoc (x ∷ tools) t name = ground (arith, contains-snoc tools t name)

  snoc-Distinct :
      (tools : List (Tool A)) (t : Tool A)
      → Distinct tools
      → contains (names tools) t.name ≡ false
      → Distinct (tools ++ t ∷ [])
  unfolding contains
  snoc-Distinct [] t d new = (refl, tt)
  snoc-Distinct (x ∷ tools) t (fresh, d) new = (
    contains-snoc tools t x.name
        ∙ ground (arith, fresh, new, text_eq_iff x.name t.name, text_eq_iff t.name x.name),
    snoc-Distinct tools t d (ground (arith, new)),
  )

module _ {A : Type 0} (max_tools : Option ℕ) (excluded : List Text) (base : List (Tool A)) where
  -- To the tools `base` some are appended: counted, each allowed, and no more than there is room for.
  pub record Grown (tools : List (Tool A)) (count : ℕ) : Type 0 where
    pub added : List (Tool A)
    pub appended : tools ≡ base ++ added
    pub counted : count ≡ length added
    pub allowed : All (Allowed excluded) added
    pub bounded : Within max_tools (length base) (length tools)
    pub distinct : Distinct base → Distinct tools

  -- What is available is offered, and allowed.
  abbrev Available : List (Tool A) → Tool A → Type 0
  Available tools t = (contains (names tools) t.name ≡ true) × Allowed excluded t

  room-Within :
      (m : Option ℕ) (n : ℕ) (tools : List (Tool A)) (t : Tool A)
      → has_room m tools ≡ true
      → Within m n (length (tools ++ t ∷ []))
  room-Within none n tools t room = tt
  room-Within (some m) n tools t room =
      inl (omega (arith, length-append tools (t ∷ []), ltb→lt (length tools) m room))

  grow :
      (tools : List (Tool A)) (count : ℕ) (t : Tool A)
      → Grown tools count
      → Allowed excluded t
      → contains (names tools) t.name ≡ false
      → has_room max_tools tools ≡ true
      → Grown (tools ++ t ∷ []) (suc count)
  grow tools count t g ok new room = record {
    added = g.added ++ t ∷ [];
    appended = rw (← append_assoc base g.added (t ∷ [])) (ap (λ ts. ts ++ t ∷ []) g.appended);
    counted = omega (arith, g.counted, length-append g.added (t ∷ []));
    allowed = All-append (Allowed excluded) g.added (t ∷ []) g.allowed (ok, tt);
    bounded = room-Within max_tools (length base) tools t room;
    distinct = λ d. snoc-Distinct tools t (g.distinct d) new;
  }

  pub record Held (i : Injection A) : Type 0 where
    pub grown : Grown i.tools i.injected
    pub usable : All (Available i.tools) i.available

  snoc-Available :
      (tools available : List (Tool A)) (t : Tool A)
      → All (Available tools) available
      → All (Available (tools ++ t ∷ [])) available
  snoc-Available tools [] t h = h
  snoc-Available tools (u ∷ available) t ((offered, ok), h) = (
    (contains-snoc tools t u.name ∙ ground (arith, offered), ok),
    snoc-Available tools available t h,
  )

  -- A tool that is given room.
  add-Held :
      (t : Tool A) (i : Injection A)
      → Held i
      → Allowed excluded t
      → contains (names i.tools) t.name ≡ false
      → has_room max_tools i.tools ≡ true
      → Held (record {
        tools = i.tools ++ t ∷ [];
        available = i.available ++ t ∷ [];
        injected = suc i.injected;
      })
  add-Held t i h ok new room = record {
    grown = grow i.tools i.injected t h.grown ok new room;
    usable =
        All-append (Available (i.tools ++ t ∷ [])) i.available (t ∷ [])
          (snoc-Available i.tools i.available t h.usable)
          ((contains-snoc i.tools t t.name ∙ ground (arith, text_eq_refl t.name), ok), tt);
  }

  inject_tool-Held :
      (t : Tool A) (i : Injection A) → Held i → Held (inject_tool max_tools excluded t i)
  inject_tool-Held t i h = elim (Bool-cases (not (has_name t.name) || contains excluded t.name)) [
    | inl skipped ↦ rw skipped h
    | inr taken ↦
        let ok : Allowed excluded t = (ground (arith, taken), ground (arith, taken)) in
        rw taken (elim (Bool-cases (contains (names i.tools) t.name)) [
          | inl there ↦ rw there (record {
            grown = h.grown;
            usable = All-append (Available i.tools) i.available (t ∷ []) h.usable ((there, ok), tt);
          })
          | inr new ↦ rw new (elim (Bool-cases (has_room max_tools i.tools)) [
            | inl room ↦ rw room (add-Held t i h ok new room)
            | inr full ↦ rw full h
          ])
        ])
  ]

  pub inject_all-Held :
      (discovered : List (Tool A)) (i : Injection A)
      → Held i
      → Held (inject_all max_tools excluded discovered i)
  unfolding inject_all
  inject_all-Held [] i h = h
  inject_all-Held (t ∷ discovered) i h =
      inject_all-Held discovered (inject_tool max_tools excluded t i) (inject_tool-Held t i h)

-- No result of the plans from `i` up to `n` is missing.
abbrev pub Present : {D : Type 0} → ℕ → ℕ → Results D → Type 0
Present i n results = (k : ℕ) → i ≤ k → k < n → is_none (results k) ≡ false

module _ {D A : Type 0} (search : SearchData D A) (max_tools : Option ℕ)
    (excluded : List Text) where
  inject_into-Grown :
      (base : List (Tool A)) (i : ℕ) (exec : ToolExecResult D) (d : Option (D × List (Tool A)))
      (s : Injected D A)
      → Grown max_tools excluded base s.tools s.injected
      → Grown max_tools excluded base
          (inject_into search max_tools excluded i exec d s).tools
          (inject_into search max_tools excluded i exec d s).injected
  inject_into-Grown base i exec none s g = g
  inject_into-Grown base i exec (some (d, discovered)) s g =
      (inject_all-Held max_tools excluded base discovered
        (record { tools = s.tools; available = []; injected = s.injected })
        (record { grown = g; usable = tt })).grown

  inject_into-Present :
      (i m n : ℕ) (exec : ToolExecResult D) (d : Option (D × List (Tool A))) (s : Injected D A)
      → Present m n s.exec_results
      → Present m n (inject_into search max_tools excluded i exec d s).exec_results
  inject_into-Present i m n exec none s all k h below = all k h below
  inject_into-Present i m n exec (some (d, discovered)) s all k h below =
      ground (arith, all k h below)

abbrev before_injection : {D A : Type 0} → List (Tool A) → Results D → Injected D A
before_injection tools results = record { tools = tools; injected = 0; exec_results = results }

module _ {P D A : Type 0} (search : SearchData D A) (max_tools : Option ℕ)
    (excluded : List Text) where
  inject_from-Grown :
      (base : List (Tool A)) (i : ℕ) (plans : List (ToolPlan P)) (s : Injected D A)
      → Present i (i + length plans) s.exec_results
      → Grown max_tools excluded base s.tools s.injected
      → (after : Injected D A) × (inject_from search max_tools excluded i plans s ≡ some after)
        × Grown max_tools excluded base after.tools after.injected
        × ((n : ℕ) → Present 0 n s.exec_results → Present 0 n after.exec_results)
  unfolding inject_from
  inject_from-Grown base i [] s all g = (s, refl, g, λ n present. present)
  inject_from-Grown base i (p ∷ plans) s all g = elim (Option-cases (s.exec_results i)) [
    | inl missing ↦
        let found = all i (omega arith) (omega arith) in absurd (cc (ap is_none missing, found))
    | inr (exec, e) ↦
        let next = inject_into search max_tools excluded i exec (discovered_by search p exec) s in
        let (after, returns, grown, kept) =
          inject_from-Grown base (suc i) plans next
            (λ k h m.
              inject_into-Present search max_tools excluded i i (i + length (p ∷ plans)) exec
                (discovered_by search p exec) s all k (omega (arith, h)) (omega (arith, m)))
            (inject_into-Grown search max_tools excluded base i exec (discovered_by search p exec) s
              g) in
        (
          after,
          rw (e, inject_from) returns,
          grown,
          λ n present. kept n (
              inject_into-Present search max_tools excluded i 0 n exec (discovered_by search p exec)
                s present),
        )
  ]

  inject_all_plans :
      (plans : List (ToolPlan P)) (results : Results D) (tools : List (Tool A))
      → Present 0 (length plans) results
      → (after : Injected D A) × (inject_from search max_tools excluded 0 plans
            (before_injection tools results)
          ≡ some after)
        × Grown max_tools excluded tools after.tools after.injected
        × ((n : ℕ) → Present 0 n results → Present 0 n after.exec_results)
  inject_all_plans plans results tools all =
      inject_from-Grown tools 0 plans (before_injection tools results)
        (λ k h m. all k h (omega (arith, m)))
        (record {
          added = [];
          appended = sym (append-nil tools);
          counted = refl;
          allowed = tt;
          bounded = nothing_added max_tools (length tools);
          distinct = λ d. d;
        })

  pub inject_discovered_tools-Present :
      (plans : List (ToolPlan P)) (results : Results D) (tools : List (Tool A))
      → Present 0 (length plans) results
      → (after : Injected D A) × (inject_discovered_tools search max_tools excluded plans results
            tools
          ≡ some after)
        × Present 0 (length plans) after.exec_results
  unfolding inject_discovered_tools
  inject_discovered_tools-Present plans results tools all =
      let (after, returns, _, kept) = inject_all_plans plans results tools all in
      (after, returns, kept (length plans) all)

  -- Where each plan has its result, the discovered tools are injected with no error: the tools that were
  -- offered stay, and those that are appended are as many as is answered, have names, none of them
  -- excluded, and leave the number of tools within the maximum unless none was appended; where no two
  -- offered tools had one name, none have afterwards.
  pub discovered_tools_allowed :
      (plans : List (ToolPlan P)) (results : Results D) (tools : List (Tool A))
      → Present 0 (length plans) results
      → (after : Injected D A) × (inject_discovered_tools search max_tools excluded plans results
            tools
          ≡ some after)
        × Grown max_tools excluded tools after.tools after.injected
  unfolding inject_discovered_tools
  discovered_tools_allowed plans results tools all =
      let (after, returns, grown, _) = inject_all_plans plans results tools all in
      (after, returns, grown)
