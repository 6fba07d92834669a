-- ===== src/Intake/Archive/Members.antt =====
-- intake/adapters/archive.py: which members of an archive become segments of the bundle, and how many.
use brain_flow.Prelude.{
  ℕ, ◌≤◌, String, ◌≡◌, Bool, true, false, ◌&&◌, none, some, List, [], ◌∷◌, ◌⊎◌, inl, inr, arith,
  All, length, option_ind, if◌then◌else◌,
}
use brain_flow.Intake.Limits.{check_depth}
use brain_flow.Intake.Archive.{
  Member, State, Issue, add_error, add_warning, Next, continues, breaks, returns, zip_member,
  tar_member, each, extract, extract_zip, extract_tar, Archive, zip, tar, unrecognized, corrupt,
  no_entries, is_nil, with_confidence,
}
use brain_flow.Intake.Archive.Between.{IsSafe, IsGoing, IsStopped, warn-IsGoing}
use brain_flow.Intake.Archive.Steps.{Steps, member-Steps, zip_sized-Steps, tar_sized-Steps}

module _ (to_lower : String → String) (binary_preview : ℕ → String) (depth cap : ℕ) where
  abbrev Going : State → Type 0
  Going = IsGoing to_lower binary_preview depth cap

  abbrev Stopped : State → Type 0
  Stopped = IsStopped to_lower binary_preview depth cap

  -- How a loop ends: the flag says whether it returned.
  abbrev Ends : State × Bool → Type 0
  Ends r = elim r.1 [ true ↦ Stopped r.0 | false ↦ Going r.0 ]

  each-Ended :
      (body : Member → State → Next)
      → ((m : Member) (s : State) → Going s → Steps Going Stopped (body m s))
      → (ms : List Member) (s : State) → Going s
      → Ends (each to_lower binary_preview depth body ms s)
  unfolding each
  each-Ended body step [] s h = h
  each-Ended body step (m ∷ ms) s h = go (body m s) (step m s h) (each-Ended body step ms)
    where
      go :
          (n : Next)
          → Steps Going Stopped n
          → ((s : State) → Going s → Ends (each to_lower binary_preview depth body ms s))
          → Ends (elim n [
            | continues s' ↦ each to_lower binary_preview depth body ms s'
            | breaks s' ↦ (s', false)
            | returns s' ↦ (s', true)
          ])
      go (continues s') k rest = rest s' k
      go (breaks s') k rest = k
      go (returns s') k rest = k

  -- What is shown of a finished bundle.
  pub record IsKept (s : State) : Type 0 where
    pub counted : length s.bundle.segments ≤ cap
    pub safe : All (IsSafe to_lower binary_preview depth) s.bundle.segments
    pub trust : (s.bundle.errors ≡ []) ⊎ (s.bundle.confidence ≤ 2)

  Stopped-IsKept :
      (s : State) → Stopped s → IsKept (with_confidence to_lower binary_preview depth 2 s)
  Stopped-IsKept s h = record { counted = h.counted; safe = h.safe; trust = inr (omega arith) }

  Going-IsKept :
      (n : ℕ) (s : State) → Going s → IsKept (with_confidence to_lower binary_preview depth n s)
  Going-IsKept n s h = record {
    counted = omega (arith, h.counted, h.entries);
    safe = h.safe;
    trust = inl h.clear;
  }

  warn_if-IsGoing :
      (b : Bool) (i : Issue) (s : State) → Going s → Going (if b then add_warning i s else s)
  warn_if-IsGoing true i s h = warn-IsGoing to_lower binary_preview depth cap i s h
  warn_if-IsGoing false i s h = h

  finish-IsKept :
      (r : State × Bool) (n : ℕ) (end : State → State)
      → ((s : State) → Going s → Going (end s))
      → Ends r
      → IsKept (
          if r.1
          then with_confidence to_lower binary_preview depth 2 r.0
          else with_confidence to_lower binary_preview depth n (end r.0))
  finish-IsKept (s, true) n end step h = Stopped-IsKept s h
  finish-IsKept (s, false) n end step h = Going-IsKept n (end s) (step s h)

  extract_zip-IsKept :
      (ms : List Member) (s : State)
      → Going s
      → IsKept (extract_zip to_lower binary_preview depth ms s)
  unfolding extract_zip zip_member
  extract_zip-IsKept ms s h =
      finish-IsKept (each to_lower binary_preview depth _ ms s) _
        (λ t.
          if is_nil to_lower binary_preview depth t.bundle.segments
            && is_nil to_lower binary_preview depth t.bundle.errors
          then add_warning no_entries t
          else t)
        (λ t k. warn_if-IsGoing _ no_entries t k)
        (each-Ended _
          (member-Steps to_lower binary_preview depth cap _
            (zip_sized-Steps to_lower binary_preview depth cap))
          ms s h)

  extract_tar-IsKept :
      (ms : List Member) (s : State)
      → Going s
      → IsKept (extract_tar to_lower binary_preview depth ms s)
  unfolding extract_tar tar_member
  extract_tar-IsKept ms s h =
      finish-IsKept (each to_lower binary_preview depth _ ms s) _ (λ t. t) (λ t k. k)
        (each-Ended _
          (member-Steps to_lower binary_preview depth cap _
            (tar_sized-Steps to_lower binary_preview depth cap))
          ms s h)

  -- From a bundle without errors, with no more segments than entries were counted and no more of
  -- these than allowed, the bundle of an archive has at most `max_archive_entries` segments; each
  -- shows, in at most 8000 characters, a member whose name the quarantine lets through, if those of
  -- the start do; and the bundle has no error, or its confidence is at most 0.2.
  pub extract-IsKept :
      (a : Archive) (s : State) → Going s → IsKept (extract to_lower binary_preview depth a s)
  unfolding extract
  extract-IsKept a s h = option_ind IsKept (check_depth depth s.tracker) (λ _. go a) (λ e _. kept _)
    where
      kept : (i : Issue) → IsKept (with_confidence to_lower binary_preview depth 0 (add_error i s))
      kept i = record {
        counted = omega (arith, h.counted, h.entries);
        safe = h.safe;
        trust = inr (omega arith);
      }

      go :
          (a' : Archive)
          → IsKept (elim a' [
            | zip (some members) ↦ extract_zip to_lower binary_preview depth members s
            | tar (some members) ↦ extract_tar to_lower binary_preview depth members s
            | _ ↦ with_confidence to_lower binary_preview depth 0 (add_error corrupt s)
          ])
      go (zip (some members)) = extract_zip-IsKept members s h
      go (zip none) = kept corrupt
      go (tar (some members)) = extract_tar-IsKept members s h
      go (tar none) = kept corrupt
      go unrecognized = kept corrupt
