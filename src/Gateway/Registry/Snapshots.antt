-- ===== src/Gateway/Registry/Snapshots.antt =====
-- gateway/registry.py: installing a manifest, and rolling back.
use brain_flow.Prelude.{
  String, ◌≡◌, refl, ap, subst, ◌∙◌, true, false, not, Option, none, some, List, [], ◌∷◌, All,
  arith, str_eq, eq_iff, if◌then◌else◌, if_ind, Bool-cases, inl, inr,
}
use brain_flow.Prelude.Dict.{Dict, get, put, get-put}
use brain_flow.Gateway.Registry.{
  Manifest, Key, Crypto, Verdict, is_ok, Cache, str_below, latest_from, latest, unlink,
  snapshot_name, verify_manifest, install_manifest, rollback_to, rollback_registry,
}

-- A name that is above all names of the snapshots.
abbrev pub IsNewest : String → Dict Manifest → Type 0
IsNewest name files = All (λ f. str_below f.0 name ≡ true) files

below-not-eq : (n name : String) → str_below n name ≡ true → str_eq n name ≡ false
below-not-eq n name h = ground (arith, h)

latest_from-put :
    (best : String × Manifest) (files : Dict Manifest) (name : String) (m : Manifest)
    → str_below best.0 name ≡ true
    → IsNewest name files
    → latest_from best (put files name m) ≡ (name, m)
unfolding put
latest_from-put best [] name m b h =
    if_ind (λ (f : String × Manifest). f ≡ (name, m)) (str_below best.0 name) (λ _. refl)
      (λ off. absurd (ground (arith, off, b)))
latest_from-put best ((n, x) ∷ files) name m b (p, h) = rw (below-not-eq n name p) (
    latest_from-put (if str_below best.0 n then (n, x) else best) files name m
      (if_ind (λ (f : String × Manifest). str_below f.0 name ≡ true) (str_below best.0 n) (λ _. p)
        (λ _. b))
      h)

latest-put :
    (files : Dict Manifest) (name : String) (m : Manifest)
    → IsNewest name files
    → latest (put files name m) ≡ some (name, m)
unfolding put
latest-put [] name m h = refl
latest-put ((n, x) ∷ files) name m (p, h) =
    rw (below-not-eq n name p) (ap some (latest_from-put (n, x) files name m p h))

IsNewest-unlink :
    (name other : String) (files : Dict Manifest)
    → IsNewest name files
    → IsNewest name (unlink other files)
unfolding unlink
IsNewest-unlink name other [] h = tt
IsNewest-unlink name other ((n, x) ∷ files) (p, h) =
    if_ind (IsNewest name) (str_eq n other) (λ _. h) (λ _. (p, IsNewest-unlink name other files h))

-- A newer name that is written after another stays when the other is unlinked.
unlink-put :
    (files : Dict Manifest) (old name : String) (m : Manifest)
    → IsNewest name files
    → str_eq name old ≡ false
    → unlink old (put files name m) ≡ put (unlink old files) name m
unfolding put unlink
unlink-put [] old name m h k = rw k
unlink-put ((n, x) ∷ files) old name m (p, h) k =
    rw (below-not-eq n name p) (elim (Bool-cases (str_eq n old)) [
      | inl e ↦ rw e refl
      | inr e ↦ rw (e, below-not-eq n name p) (ap (◌∷◌ (n, x)) (unlink-put files old name m h k))
    ])

IsNewest-put :
    (files : Dict Manifest) (k : String) (v : Manifest) (name : String)
    → IsNewest name (put files k v)
    → str_below k name ≡ true
unfolding put
IsNewest-put [] k v name (p, h) = p
IsNewest-put ((n, x) ∷ files) k v name h = elim (Bool-cases (str_eq n k)) [
  | inl e ↦ first n (rw e at h) ((eq_iff n k).0 e)
  | inr e ↦ IsNewest-put files k v name (rw e at h).1
]
  where
    first : (n : String) → IsNewest name ((n, v) ∷ files) → n ≡ k → str_below k name ≡ true
    first n h e = subst (λ j. str_below j name ≡ true) e h.0

eq-sym : (a b : String) → str_eq a b ≡ false → str_eq b a ≡ false
eq-sym a b h = ground (arith, h, eq_iff a b, eq_iff b a)

module _ (crypto : Crypto) (keys : List Key) where
  abbrev pub Verified : Manifest → Type 0
  Verified m = is_ok (verify_manifest crypto keys true m) ≡ true

  abbrev name_of : String → Manifest → String
  name_of = snapshot_name crypto

  install-Verified :
      (stamp : String) (m c : Manifest) (files : Dict Manifest)
      → Verified m
      → (install_manifest crypto keys stamp m (record { current = some c; previous = files })).0
        ≡ record { current = some m; previous = put files (name_of stamp c) c }
  unfolding install_manifest
  install-Verified stamp m c files h =
      if_ind
        (λ (r : Cache × Verdict).
          r.0 ≡ record { current = some m; previous = put files (name_of stamp c) c })
        (not (is_ok (verify_manifest crypto keys true m))) (λ off. absurd (ground (arith, off, h)))
        (λ _. refl)

  install-first :
      (stamp : String) (m : Manifest) (files : Dict Manifest)
      → Verified m
      → (install_manifest crypto keys stamp m (record { current = none; previous = files })).0
        ≡ record { current = some m; previous = files }
  unfolding install_manifest
  install-first stamp m files h =
      if_ind (λ (r : Cache × Verdict). r.0 ≡ record { current = some m; previous = files })
        (not (is_ok (verify_manifest crypto keys true m))) (λ off. absurd (ground (arith, off, h)))
        (λ _. refl)

  install-verdict :
      (stamp : String) (m : Manifest) (s : Cache)
      → (install_manifest crypto keys stamp m s).1 ≡ verify_manifest crypto keys true m
  unfolding install_manifest
  install-verdict stamp m s =
      if_ind (λ (r : Cache × Verdict). r.1 ≡ verify_manifest crypto keys true m)
        (not (is_ok (verify_manifest crypto keys true m))) (λ _. refl) (λ _. refl)

  install-refused :
      (stamp : String) (m : Manifest) (s : Cache)
      → is_ok (verify_manifest crypto keys true m) ≡ false
      → (install_manifest crypto keys stamp m s).0 ≡ s
  unfolding install_manifest
  install-refused stamp m s h =
      if_ind (λ (r : Cache × Verdict). r.0 ≡ s) (not (is_ok (verify_manifest crypto keys true m)))
        (λ _. refl) (λ on. absurd (ground (arith, on, h)))

  -- A rollback whose newest snapshot is verified.
  rollback-Verified :
      (stamp name : String) (x c : Manifest) (files : Dict Manifest)
      → latest files ≡ some (name, x)
      → Verified x
      → (rollback_registry crypto keys stamp (record { current = some c; previous = files })).0
        ≡ record { current = some x; previous = unlink name (put files (name_of stamp c) c) }
  unfolding rollback_registry rollback_to
  rollback-Verified stamp name x c files e h =
      let start : Cache = record { current = some c; previous = files } in
      let done : Cache = record {
        current = some x;
        previous = unlink name (put files (name_of stamp c) c);
      } in
      ap (λ o. (rollback_to crypto keys stamp start o).0) e
      ∙ if_ind (λ (r : Cache × Option Verdict). r.0 ≡ done)
          (is_ok (install_manifest crypto keys stamp x start).1)
          (λ _.
            ap {A = Cache} (λ k. record k { previous = unlink name k.previous })
              (install-Verified stamp x c files h))
          (λ off. absurd (ground (arith, off, ap is_ok (install-verdict stamp x start), h)))

  -- What is in the folder of snapshots after an installation: without a current manifest nothing
  -- changes; else the current one is there under its name, and every other name is as it was.
  abbrev pub Snapshots : String → Cache → Dict Manifest → Type 0
  Snapshots stamp s files = elim s.current [
    | none ↦ files ≡ s.previous
    | some c ↦
        ((name : String)
          → get files name
            ≡ (if str_eq (snapshot_name crypto stamp c) name then some c else get s.previous name))
        × (IsNewest (snapshot_name crypto stamp c) s.previous
            → latest files ≡ some (snapshot_name crypto stamp c, c))
  ]

  install-Snapshots :
      (stamp : String) (m : Manifest) (s : Cache)
      → Verified m
      → ((install_manifest crypto keys stamp m s).0.current ≡ some m)
        × Snapshots stamp s (install_manifest crypto keys stamp m s).0.previous
  install-Snapshots stamp m s h = go s.current s.previous
    where
      go :
          (o : Option Manifest) (files : Dict Manifest)
          → let start : Cache = record { current = o; previous = files } in
            ((install_manifest crypto keys stamp m start).0.current ≡ some m)
            × Snapshots stamp start (install_manifest crypto keys stamp m start).0.previous
      go none files =
          let installed = install-first stamp m files h in
          (ap (λ k. k.current) installed, ap (λ k. k.previous) installed)
      go (some c) files =
          let installed = install-Verified stamp m c files h in
          (
            ap (λ k. k.current) installed,
            (
              λ name.
                  ap (λ k. get k.previous name) installed ∙ get-put files (name_of stamp c) name c,
              λ newest.
                  ap (λ k. latest k.previous) installed
                  ∙ latest-put files (name_of stamp c) c newest,
            ),
          )

  -- The answer to an installation is the verdict on the manifest. A refused manifest leaves the
  -- registry as it is. One that is let through becomes the current one; the folder of snapshots
  -- stays as it is if there was none before, and else gets the one before under the name of its
  -- stamp and hash, while all other names keep what they have. That snapshot is the newest, if its
  -- name comes after those that were there.
  pub install_manifest_lem :
      (stamp : String) (m : Manifest) (s : Cache)
      → ((install_manifest crypto keys stamp m s).1 ≡ verify_manifest crypto keys true m)
        × (is_ok (verify_manifest crypto keys true m) ≡ false
            → (install_manifest crypto keys stamp m s).0 ≡ s)
        × (is_ok (verify_manifest crypto keys true m) ≡ true
            → ((install_manifest crypto keys stamp m s).0.current ≡ some m)
              × Snapshots stamp s (install_manifest crypto keys stamp m s).0.previous)
  install_manifest_lem stamp m s =
      (install-verdict stamp m s, install-refused stamp m s, install-Snapshots stamp m s)

  -- A rollback takes back the installation before it: the manifest that was current is current again,
  -- if it is verified itself, and if its snapshot's name comes after those of all the others. A second
  -- rollback, though, takes back the first: it never goes on to an older snapshot, but brings back the
  -- manifest that the first one had removed, if the name of its snapshot comes last in turn.
  pub rollback_registry-install_manifest :
      (t1 t2 t3 : String) (m c : Manifest) (files : Dict Manifest)
      → Verified m
      → Verified c
      → IsNewest (snapshot_name crypto t1 c) files
      → IsNewest (snapshot_name crypto t2 m) (put files (snapshot_name crypto t1 c) c)
      → let s1 =
          (install_manifest crypto keys t1 m (record { current = some c; previous = files })).0 in
        let s2 = (rollback_registry crypto keys t2 s1).0 in
        let s3 = (rollback_registry crypto keys t3 s2).0 in
        (s2.current ≡ some c) × (s3.current ≡ some m)
  rollback_registry-install_manifest t1 t2 t3 m c files vm vc n1 n2 =
      let p1 = put files (name_of t1 c) c in
      let p2 = unlink (name_of t1 c) (put p1 (name_of t2 m) m) in
      let first =
        ap (λ k. (rollback_registry crypto keys t2 k).0) (install-Verified t1 m c files vm)
        ∙ rollback-Verified t2 (name_of t1 c) c m p1 (latest-put files (name_of t1 c) c n1) vc in
      let apart = below-not-eq (name_of t1 c) (name_of t2 m) (IsNewest-put files _ c _ n2) in
      let newest : latest p2 ≡ some (name_of t2 m, m) =
        ap latest (unlink-put p1 (name_of t1 c) (name_of t2 m) m n2 (eq-sym _ _ apart))
        ∙ latest-put (unlink (name_of t1 c) p1) (name_of t2 m) m (IsNewest-unlink _ _ p1 n2) in
      let second =
        ap (λ k. (rollback_registry crypto keys t3 k).0) first
        ∙ rollback-Verified t3 (name_of t2 m) m c p2 newest vm in
      (ap (λ k. k.current) first, ap (λ k. k.current) second)
