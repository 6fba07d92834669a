-- ===== src/Kernel/Topo/Counts.antt =====
-- kernel/executor.py: how often an id stands among the keys of a dictionary of `_topo_layers`, and among
-- the roots.
use brain_flow.Prelude.{
  ◌+◌, ◌≤◌, String, ◌≡◌, refl, true, false, ◌&&◌, ◌||◌, Option, none, some, List, [], ◌∷◌, All,
  arith, str_eq, eq_iff, eq_refl, if◌then◌else◌, if_ind,
}
use brain_flow.Prelude.Dict.{Dict, get, put, has, keys, get-put}
use brain_flow.Prelude.Int.{ℤ, is_zero}
use brain_flow.Kernel.Workflow.{Edge}
use brain_flow.Kernel.Topo.{from_id, to_id, degree, targets, roots}
use brain_flow.Kernel.Topo.Order.{count, precedes}

pub has-put_or :
    {V : Type 0} (d : Dict V) (k j : String) (v : V) → has (put d k v) j ≡ (has d j || str_eq k j)
unfolding has put
has-put_or [] k j v = ground arith
has-put_or ((i, w) ∷ d) k j v =
    ground (arith, has-put_or d k j v, eq_iff i k, eq_iff k j, eq_iff i j)

-- A key stands in a dictionary once, if it did before.
pub count-put :
    {V : Type 0} (d : Dict V) (k j : String) (v : V)
    → count j (keys (put d k v))
      ≡ count j (keys d) + (if has d k then 0 else if str_eq k j then 1 else 0)
unfolding count put has
count-put [] k j v = ground arith
count-put ((i, w) ∷ d) k j v = ground (arith, count-put d k j v)

pub has-count : {V : Type 0} (d : Dict V) (k : String) → has d k ≡ false → count k (keys d) ≡ 0
unfolding count has
has-count [] k h = refl
has-count ((i, w) ∷ d) k h = ground (arith, has-count d k)

count-has : {V : Type 0} (d : Dict V) (k : String) → count k (keys d) ≡ 0 → has d k ≡ false
unfolding count has
count-has [] k h = refl
count-has ((i, w) ∷ d) k h = ground (arith, count-has d k)

pub targets-put_eq :
    (adj : Dict (List String)) (u x : String) (vs : List String)
    → targets (put adj u vs) x ≡ (if str_eq u x then vs else targets adj x)
targets-put_eq adj u x vs =
    rw (targets, get-put adj u x vs)
      (if_ind
        (λ (o : Option (List String)).
          elim o [ none ↦ [] | some ws ↦ ws ] ≡ (if str_eq u x then vs else targets adj x))
        (str_eq u x) (λ e. rw e refl) (λ e. rw e refl))

-- Each node without edges is a root, once.
pub count-roots :
    (d : Dict ℤ)
    → ((v : String) → count v (keys d) ≤ 1)
    → (v : String) → count v (roots d) ≡ (if has d v && is_zero (degree d v) then 1 else 0)
unfolding count roots has get
count-roots [] h v = refl
count-roots ((j, n) ∷ d) h v =
    let rest = count-roots d (λ x. omega (arith, h x)) v in
    let once = count-has d j (ground (arith, h j, eq_refl j)) in
    ground (arith, rest, once, eq_iff j v)

pub nothing_placed :
    (es : List Edge)
    → All (λ e. 1 ≤ count (to_id e) [] → precedes (from_id e) (to_id e) [] ≡ true) es
unfolding count
nothing_placed [] = tt
nothing_placed (e ∷ es) = (λ h. absurd (omega arith), nothing_placed es)
