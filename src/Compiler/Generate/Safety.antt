-- ===== src/Compiler/Generate/Safety.antt =====
-- workflow_gen.py: what a compiled workflow may do, and what its edges join.
use Prim.Native.String
use brain_flow.Prelude.{
  ℕ, ◌+◌, String, ◌≡◌, refl, sym, subst, ◌∙◌, true, Option, none, some, List, [], ◌∷◌, All, All-imp,
  arith, map, str_eq, eq_refl, if◌then◌else◌, Bool-cases, inl, inr, option_ind,
}
use brain_flow.Prelude.Dict.{Dict, get, get-put}
use brain_flow.Prelude.Text.{before}
use brain_flow.Kernel.Policy.{contains}
use brain_flow.Kernel.Workflow.{Node}
use brain_flow.Gateway.Pins.{Ref}
use brain_flow.Compiler.Packs.{Pack}
use brain_flow.Compiler.Generate.{
  RawNode, RawEdge, RawDoc, Link, Generated, Texts, Compiled, no_nodes, no_usable_nodes, compiled,
  Ids, fresh, make_node, make_nodes, make_link, make_links, chain, or_chain, assemble,
  generate_workflow_ir, key_of,
}
use brain_flow.Compiler.Generate.Harmless.{IsHarmless, make_nodes-IsHarmless}

some_text : {a b : String} → some a ≡ some b → a ≡ b
some_text e = ground arith

abbrev pub ids_of : List Node → List String
ids_of = map (λ n. n.id)

module _ (uuid4 : ℕ → String) (show : ℕ → String) (pick : List String → String) where
  -- Every id that has been given out satisfies a predicate.
  abbrev Given : (String → Type 0) → Ids → Type 0
  Given P s = (k u : String) → get s.id_map k ≡ some u → P u

  written :
      (P : String → Type 0) (key k new u : String) (o : Option String)
      → P new
      → (o ≡ some u → P u)
      → (if str_eq key k then some new else o) ≡ some u
      → P u
  written P key k new u o p h e = elim (Bool-cases (str_eq key k)) [
    | inl t ↦ subst P (some_text (rw t at e)) p
    | inr f ↦ h (rw f at e)
  ]

  fresh-Given :
      (P : String → Type 0) (old : Option String) (s : Ids)
      → Given P s
      → P (fresh uuid4 show pick old s).0
      → Given P (fresh uuid4 show pick old s).1
  unfolding fresh
  fresh-Given P old s h p =
      let key = key_of uuid4 show pick s old in
      option_ind (λ (r : String × Ids). P r.0 → Given P r.1) (get s.id_map key)
        (λ _ q k u e.
          written P key k (uuid4 s.given) u (get s.id_map k) q (h k u)
            (sym (get-put s.id_map key k (uuid4 s.given)) ∙ e))
        (λ u _ q. h) p

  make_nodes-Given :
      (P : String → Type 0) (pack : Pack) (ns : List (Option RawNode)) (s : Ids)
      → Given P s
      → All P (ids_of (make_nodes uuid4 show pick pack ns s).0)
      → Given P (make_nodes uuid4 show pick pack ns s).1
  unfolding make_nodes make_node
  make_nodes-Given P pack [] s h all = h
  make_nodes-Given P pack (none ∷ ns) s h all = make_nodes-Given P pack ns s h all
  make_nodes-Given P pack (some n ∷ ns) s h (p, all) =
      make_nodes-Given P pack ns _ (fresh-Given P n.id s h p) all

  -- An edge that joins two of the nodes.
  abbrev pub IsJoined : List Node → Link → Type 0
  IsJoined nodes l =
      (a b : String) × (contains (ids_of nodes) a ≡ true)
      × (contains (ids_of nodes) b ≡ true)
      × (l.source ≡ String.◌++◌ a ":out")
      × (l.target ≡ String.◌++◌ b ":in")

  module _ (nodes : List Node) (ids : Dict String)
      (known : (k u : String) → get ids k ≡ some u → contains (ids_of nodes) u ≡ true) where
    make_links-IsJoined :
        (es : List (Option RawEdge)) (n : ℕ)
        → All (IsJoined nodes) (make_links uuid4 show pick ids es n).0
    unfolding make_links
    make_links-IsJoined [] n = tt
    make_links-IsJoined (none ∷ es) n = make_links-IsJoined es n
    make_links-IsJoined (some e ∷ es) n =
        go (get ids (before b':' e.source)) (get ids (before b':' e.target))
          (known (before b':' e.source)) (known (before b':' e.target)) (make_links-IsJoined es n)
          (make_links-IsJoined es (n + 1))
      where
        go :
            (o p : Option String)
            → ((u : String) → o ≡ some u → contains (ids_of nodes) u ≡ true)
            → ((u : String) → p ≡ some u → contains (ids_of nodes) u ≡ true)
            → All (IsJoined nodes) (make_links uuid4 show pick ids es n).0
            → All (IsJoined nodes) (make_links uuid4 show pick ids es (n + 1)).0
            → All
                (IsJoined nodes)
                (elim (make_link uuid4 show pick n o p e.kind) as (λ _. List Link × ℕ) [
                  | none ↦ make_links uuid4 show pick ids es n
                  | some l ↦ (let r = make_links uuid4 show pick ids es (n + 1) in (l ∷ r.0, r.1))
                ]).0
        go (some u) (some v) h k same next = ((u, v, h u refl, k v refl, refl, refl), next)
        go none p h k same next = same
        go (some u) none h k same next = same

  later :
      (m : Node) (ns ms : List Node)
      → All (λ n. contains (ids_of ns) n.id ≡ true) ms
      → All (λ n. contains (ids_of (m ∷ ns)) n.id ≡ true) ms
  later m ns ms h = All-imp (λ n k. ground (arith, k)) ms h

  own_ids : (ns : List Node) → All (λ n. contains (ids_of ns) n.id ≡ true) ns
  own_ids [] = tt
  own_ids (n ∷ ns) = (ground (arith, eq_refl n.id), later n ns ns (own_ids ns))

  chain-IsJoined :
      (nodes ms : List Node) (n : ℕ)
      → All (λ m. contains (ids_of nodes) m.id ≡ true) ms
      → All (IsJoined nodes) (chain uuid4 show pick ms n).0
  unfolding chain
  chain-IsJoined nodes [] n h = tt
  chain-IsJoined nodes (a ∷ []) n h = tt
  chain-IsJoined nodes (a ∷ b ∷ ms) n (p, (q, h)) =
      ((a.id, b.id, p, q, refl, refl), chain-IsJoined nodes (b ∷ ms) (n + 1) (q, h))

  or_chain-IsJoined :
      (nodes : List Node) (r : List Link × ℕ)
      → All (IsJoined nodes) r.0
      → All (IsJoined nodes) (or_chain uuid4 show pick nodes r).0
  or_chain-IsJoined nodes ([], n) h = chain-IsJoined nodes nodes n (own_ids nodes)
  or_chain-IsJoined nodes (l ∷ links, n) h = h

  abbrev IsSafe : Compiled → Type 0
  IsSafe no_nodes = Unit
  IsSafe no_usable_nodes = Unit
  IsSafe (compiled w) = All IsHarmless w.nodes × All (IsJoined w.nodes) w.edges

  assemble-IsSafe :
      (planner : Ref) (texts : Texts) (r : List Node × Ids) (doc : RawDoc)
      → All IsHarmless r.0
      → ((k u : String) → get r.1.id_map k ≡ some u → contains (ids_of r.0) u ≡ true)
      → IsSafe (assemble uuid4 show pick planner texts r doc)
  assemble-IsSafe planner texts ([], s) doc h k = tt
  assemble-IsSafe planner texts (n ∷ nodes, s) doc h k = (
    h,
    or_chain-IsJoined (n ∷ nodes) _ (make_links-IsJoined (n ∷ nodes) s.id_map k doc.edges s.given),
  )

  generate-IsSafe :
      (pack : Pack) (prompt model : String) (model_digest : Option String) (digests : Dict String)
      (doc : RawDoc)
      → IsSafe (generate_workflow_ir uuid4 show pick pack prompt model model_digest digests doc)
  unfolding generate_workflow_ir get
  generate-IsSafe pack prompt model model_digest digests doc = go doc.nodes _ (
      assemble-IsSafe _ _ (make_nodes uuid4 show pick pack doc.nodes start) doc
        (make_nodes-IsHarmless uuid4 show pick pack doc.nodes start)
        (make_nodes-Given _ pack doc.nodes start (λ k u e. absurd (ground (arith, e)))
          (ids_All (make_nodes uuid4 show pick pack doc.nodes start).0)))
    where
      start : Ids
      start = record { id_map = []; given = 0 }

      go :
          (ns : List (Option RawNode)) (c : Compiled)
          → IsSafe c
          → IsSafe (elim ns [ [] ↦ no_nodes | _ ∷ _ ↦ c ])
      go [] c h = tt
      go (n ∷ ns) c h = h

      mapped : (P : String → Type 0) (ns : List Node) → All (λ n. P n.id) ns → All P (ids_of ns)
      mapped P [] h = tt
      mapped P (n ∷ ns) (p, h) = (p, mapped P ns h)

      ids_All : (ns : List Node) → All (λ u. contains (ids_of ns) u ≡ true) (ids_of ns)
      ids_All ns = mapped _ ns (own_ids ns)

  -- Whatever the model writes, a workflow that is compiled from it is harmless and joined: the policy gate
  -- has nothing against any of its nodes and asks for no approval, the executor runs each without one,
  -- and every edge leads from one of its nodes to one of its nodes.
  pub generate_workflow_ir-IsSafe :
      (pack : Pack) (prompt model : String) (model_digest : Option String) (digests : Dict String)
      (doc : RawDoc) (w : Generated)
      → generate_workflow_ir uuid4 show pick pack prompt model model_digest digests doc ≡ compiled w
      → All IsHarmless w.nodes × All (IsJoined w.nodes) w.edges
  generate_workflow_ir-IsSafe pack prompt model model_digest digests doc w e =
      subst IsSafe e (generate-IsSafe pack prompt model model_digest digests doc)
