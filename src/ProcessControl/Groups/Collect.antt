-- ===== src/ProcessControl/Groups/Collect.antt =====
-- The groups that `collect_browser_groups` of src/process_control.c makes.
use browser_guard.Prelude.{
  ℕ, ◌≤◌, ◌≡◌, refl, Bool, true, false, some, List, [], ◌∷◌, ◌++◌, arith, inl, inr, Bool-cases,
  Option-cases, leb, if◌then◌else◌, All, All-append, Text, text_ieq, length, length-append,
}
use browser_guard.Windows.{Processes}
use browser_guard.Windows.Laws.{IdentityLaws}
use browser_guard.ProcessControl.{BrowserGroup}
use browser_guard.ProcessControl.Groups.{
  SecurityContext, max_group_pids, is_manageable_browser_process, find_group_by_name, change_group,
  new_group, add_pid, collect_process, collect_entries, collect_browser_groups,
}
use browser_guard.ProcessControl.Groups.Ours
use browser_guard.ProcessControl.Groups.Ours.{Listed, is_manageable_browser_process-tells}

-- The groups: within their arrays, and each process with a property.
pub record Holding {ℓ} (Q : ℕ → Type ℓ) (g : BrowserGroup) : Type ℓ where
  pub bounded : length g.pids ≤ max_group_pids
  pub each : All Q g.pids

module _ {ℓ} (Q : ℕ → Type ℓ) where
  add_pid-Holding : (pid : ℕ) (g : BrowserGroup) → Q pid → Holding Q g → Holding Q (add_pid pid g)
  unfolding add_pid
  add_pid-Holding pid g q h = elim (Bool-cases (leb max_group_pids (length g.pids))) [
    | inl full ↦ rw (full, add_pid) h
    | inr room ↦
        rw (room, add_pid)
          (record {
            bounded = ground (arith, length-append g.pids (pid ∷ []));
            each = All-append Q g.pids (pid ∷ []) h.each (q, tt);
          })
  ]

  change_group-Holding :
      (pid : ℕ) (name : Text) (gs : List BrowserGroup)
      → Q pid
      → All (Holding Q) gs
      → All (Holding Q) (change_group (add_pid pid) name gs)
  unfolding change_group
  change_group-Holding pid name [] q h = tt
  change_group-Holding pid name (g ∷ gs) q h = elim (Bool-cases (text_ieq g.exe_name name)) [
    | inl same ↦ rw (same, change_group) (add_pid-Holding pid g q h.0, h.1)
    | inr other ↦ rw (other, change_group) (h.0, change_group-Holding pid name gs q h.1)
  ]

  new_group-Holding : (name : Text) → Holding Q (new_group name)
  unfolding new_group
  new_group-Holding name = record { bounded = omega arith; each = tt }

  pub Holding-if :
      (test : Bool) (gs gs' : List BrowserGroup)
      → All (Holding Q) gs
      → All (Holding Q) gs'
      → All (Holding Q) (if test then gs else gs')
  Holding-if true gs gs' h h' = h
  Holding-if false gs gs' h h' = h'

  pub collect_process-Holding :
      (capacity pid : ℕ) (name : Text) (gs : List BrowserGroup)
      → Q pid
      → All (Holding Q) gs
      → All (Holding Q) (collect_process capacity pid name gs)
  unfolding collect_process
  collect_process-Holding capacity pid name gs q h =
      elim (Option-cases (find_group_by_name name gs)) [
        | inr (g, found) ↦ rw (found, collect_process) (change_group-Holding pid name gs q h)
        | inl absent ↦
            rw (absent, collect_process)
              (Holding-if (leb capacity (length gs)) gs (gs ++ add_pid pid (new_group name) ∷ []) h
                (All-append (Holding Q) gs (add_pid pid (new_group name) ∷ []) h
                  (add_pid-Holding pid (new_group name) q (new_group-Holding name), tt)))
      ]

length-change_group :
    (pid : ℕ) (name : Text) (gs : List BrowserGroup)
    → length (change_group (add_pid pid) name gs) ≡ length gs
unfolding change_group
length-change_group pid name [] = refl
length-change_group pid name (g ∷ gs) = ground (arith, length-change_group pid name gs)

length-collect_process :
    (capacity pid : ℕ) (name : Text) (gs : List BrowserGroup)
    → length gs ≤ capacity
    → length (collect_process capacity pid name gs) ≤ capacity
unfolding collect_process
length-collect_process capacity pid name gs h = elim (Option-cases (find_group_by_name name gs)) [
  | inr (g, found) ↦ rw (found, collect_process) (ground (arith, length-change_group pid name gs))
  | inl absent ↦
      rw (absent, collect_process)
        (ground (arith, length-append gs (add_pid pid (new_group name) ∷ [])))
]

module _ {P : Type 0} ⦃ps : Processes P⦄ (laws : IdentityLaws ps) (context : SecurityContext)
    (capacity : ℕ) where
  collected :
      Ours.IsOwn laws context
      → (all es : List (ℕ × Text)) (gs : List BrowserGroup) (s : P)
      → ((pid : ℕ) (name : Text) → Listed pid name es → Listed pid name all)
      → All (Holding (Ours.IsManageable laws all)) gs
      → length gs ≤ capacity
      → let o = collect_entries context capacity es gs s in
        All (Holding (Ours.IsManageable laws all)) o.0 × (length o.0 ≤ capacity)
  unfolding collect_entries
  collected own all [] gs s sub h fits = (h, fits)
  collected own all (e ∷ es) gs s sub h fits =
      let (manageable, s1) = is_manageable_browser_process context e.0 e.1 s in
      let later : (pid : ℕ) (name : Text) → Listed pid name es → Listed pid name all =
        λ pid name l. sub pid name (inr l) in
      elim (Bool-cases manageable) [
        | inr no_match ↦ rw (no_match, collect_entries) (collected own all es gs s1 later h fits)
        | inl matches ↦
            let facts = is_manageable_browser_process-tells laws context own e.0 e.1 s matches in
            let q : Ours.IsManageable laws all e.0 = record {
              name = e.1;
              listed = sub e.0 e.1 (inl (refl, refl));
              supported = facts.0;
              same_session = facts.1;
              same_user = facts.2;
            } in
            rw (matches, collect_entries)
              (collected own all es (collect_process capacity e.0 e.1 gs) s1 later
                (collect_process-Holding (Ours.IsManageable laws all) capacity e.0 e.1 gs q h)
                (length-collect_process capacity e.0 e.1 gs fits))
      ]

  -- With this program's own context, every process of a group is in the snapshot under the name of a
  -- supported browser, runs in this session and as this user; there are no more groups than fit, and no
  -- group has more processes than fit, however many there are.
  pub collect_browser_groups-IsManageable :
      Ours.IsOwn laws context
      → (entries : List (ℕ × Text)) (s : P)
      → let o = collect_browser_groups context capacity (some entries) s in
        All (Holding (Ours.IsManageable laws entries)) o.0 × (length o.0 ≤ capacity)
  unfolding collect_browser_groups
  collect_browser_groups-IsManageable own entries s =
      collected own entries entries [] s (λ _ _ l. l) tt (omega arith)
