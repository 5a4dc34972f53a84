-- ===== src/MemLs/Exclusion.antt =====
-- src/memls.rs: locks that exclude one another, in a tree of locks.
use dav_server_rs.Common.{
  ℕ, ◌≤◌, ◌≡◌, sym, ◌∙◌, true, some, List, [], ◌∷◌, Bytes, All, arith, nat_eq, list_eq, length, inl,
  inr, ◌⊎◌,
}
use dav_server_rs.Common.Dict.{get, remove, get-remove}
use dav_server_rs.Ls.{DavLock}
use dav_server_rs.MemLs.Thinning.{
  IsThinned, done, drop, keep, IsThinned-refl, IsPruned, IsPruned-refl, put-IsPruned,
}
use dav_server_rs.MemLs.Walk.{Locks}
use dav_server_rs.Tree.{Node, forget, put}
use dav_server_rs.Tree.Deleting.{Frame, IsTreeAt}

module _ {Element : Type 0} where
  -- A node links to another.
  abbrev pub HasChild : Locks Element → ℕ → ℕ → Type 0
  HasChild t i c =
      (n : Node Bytes (List (DavLock Element))) × (key : Bytes) × (get t.nodes i ≡ some n)
      × (get n.children key ≡ some c)

  -- The way down from a node, along links.
  pub data Leads (t : Locks Element) (i : ℕ) : ℕ → Type 0 where
    stop : Leads t i i
    down : {j c : ℕ} → Leads t i j → HasChild t j c → Leads t i c

  abbrev pub IsAbove : Locks Element → ℕ → ℕ → Type 0
  IsAbove t i j = (k : ℕ) × Leads t i k × HasChild t k j

  abbrev pub IsShared : DavLock Element → Type 0
  IsShared l = l.shared ≡ true

  -- The locks of one node: where there are several, all are shared.
  abbrev pub AreAlike : List (DavLock Element) → Type 0
  AreAlike locks = (length locks ≤ 1) ⊎ All IsShared locks

  -- A deep lock stands above other locks only where both are shared.
  abbrev pub AreCompatible : List (DavLock Element) → List (DavLock Element) → Type 0
  AreCompatible above below =
      All (λ l. l.deep ≡ true → All (λ l'. IsShared l × IsShared l') below) above

  -- An exclusive lock excludes any other lock of its own node, any lock that it covers, and any
  -- lock that covers it.
  pub record IsExclusive (t : Locks Element) : Type 0 where
    pub alike :
        (i : ℕ) (n : Node Bytes (List (DavLock Element)))
        → get t.nodes i ≡ some n
        → AreAlike n.content
    pub compatible :
        (i j : ℕ) (n m : Node Bytes (List (DavLock Element)))
        → IsAbove t i j
        → get t.nodes i ≡ some n
        → get t.nodes j ≡ some m
        → AreCompatible n.content m.content

  pub All-thinned :
      (P : DavLock Element → Type 0) {xs ys : List (DavLock Element)}
      → ((k l : DavLock Element) → k.shared ≡ l.shared → k.deep ≡ l.deep → P l → P k)
      → IsThinned xs ys
      → All P ys
      → All P xs
  All-thinned P f done h = tt
  All-thinned P f (drop thin) (p, h) = All-thinned P f thin h
  All-thinned P f (keep {k = k} {l = l} s d thin) (p, h) = (f k l s d p, All-thinned P f thin h)

  pub length-thinned : {xs ys : List (DavLock Element)} → IsThinned xs ys → length xs ≤ length ys
  length-thinned done = omega arith
  length-thinned (drop thin) = omega (arith, length-thinned thin)
  length-thinned (keep s d thin) = omega (arith, length-thinned thin)

  HasChild-pruned :
      (old t : Locks Element) → IsPruned old t → (i c : ℕ) → HasChild t i c → HasChild old i c
  HasChild-pruned old t h i c (n', key, found, linked) =
      let (n, was, left) = h i n' found in (n, key, was, left.children key c linked)

  -- Fewer links lead to fewer nodes.
  pub Leads-fewer :
      (old t : Locks Element) (i j : ℕ)
      → ((k c : ℕ) → HasChild t k c → HasChild old k c)
      → Leads t i j
      → Leads old i j
  Leads-fewer old t i _ h stop = stop
  Leads-fewer old t i _ h (down {j = j} {c = c} way link) =
      down (Leads-fewer old t i j h way) (h j c link)

  pub IsAbove-fewer :
      (old t : Locks Element) (i j : ℕ)
      → ((k c : ℕ) → HasChild t k c → HasChild old k c)
      → IsAbove t i j
      → IsAbove old i j
  IsAbove-fewer old t i j h (k, way, link) = (k, Leads-fewer old t i k h way, h k j link)

  pub thin-AreAlike : {xs ys : List (DavLock Element)} → IsThinned xs ys → AreAlike ys → AreAlike xs
  thin-AreAlike thin (inl few) = inl (omega (arith, length-thinned thin))
  thin-AreAlike thin (inr all) = inr (All-thinned IsShared (λ k l s d p. s ∙ p) thin all)

  -- Taking locks out keeps the others exclusive.
  pub IsExclusive-pruned :
      (old t : Locks Element) → IsPruned old t → IsExclusive old → IsExclusive t
  IsExclusive-pruned old t h w = record {
    alike = λ i n' found.
        let (n, was, left) = h i n' found in thin-AreAlike left.content (w.alike i n was);
    compatible = λ i j n' m' above found found'.
        let (n, was, left) = h i n' found in
        let (m, was', left') = h j m' found' in
        All-thinned (λ l. l.deep ≡ true → All (λ l'. IsShared l × IsShared l') m'.content)
          (λ k l s d p deep. relax k l s m'.content (p (sym d ∙ deep))) left.content
          (shrink n.content m.content m'.content left'.content (
            w.compatible i j n m (IsAbove-fewer old t i j (HasChild-pruned old t h) above) was
              was'));
  }
    where
      relax :
          (k l : DavLock Element)
          → k.shared ≡ l.shared
          → (xs : List (DavLock Element)) → All (λ l'. IsShared l × IsShared l') xs
          → All (λ l'. IsShared k × IsShared l') xs
      relax k l s [] h = tt
      relax k l s (x ∷ xs) ((a, b), h) = ((s ∙ a, b), relax k l s xs h)

      shrink :
          (above below below' : List (DavLock Element))
          → IsThinned below' below
          → AreCompatible above below
          → AreCompatible above below'
      shrink [] below below' thin h = tt
      shrink (l ∷ above) below below' thin (p, h) = (
        λ deep.
            All-thinned (λ l'. IsShared l × IsShared l') (λ _ _ s d (a, b). (a, s ∙ b)) thin
              (p deep),
        shrink above below below' thin h,
      )

  pub unlink-IsExclusive :
      (t : Locks Element) (p : ℕ) (n : Node Bytes (List (DavLock Element))) (key : Bytes)
      → get t.nodes p ≡ some n
      → IsExclusive t
      → IsExclusive (put p (record n { children = remove n.children key }) t)
  unlink-IsExclusive t p n key found = IsExclusive-pruned t _ (
      put-IsPruned t t p n (record n { children = remove n.children key }) found
        (record {
          content = IsThinned-refl n.content;
          children = λ k c e. ground (arith, get-remove n.children key k);
        })
        (IsPruned-refl t))

  pub forget-IsExclusive : (t : Locks Element) (id : ℕ) → IsExclusive t → IsExclusive (forget id t)
  forget-IsExclusive t id =
      IsExclusive-pruned t (forget id t)
        (λ i m there. IsPruned-refl t i m (ground (arith, get-remove t.nodes id i)))

  pub thin-IsExclusive :
      (t : Locks Element) (id : ℕ) (n : Node Bytes (List (DavLock Element)))
      (content : List (DavLock Element))
      → get t.nodes id ≡ some n
      → IsThinned content n.content
      → IsExclusive t
      → IsExclusive (put id (record n { content = content }) t)
  thin-IsExclusive t id n content found thin = IsExclusive-pruned t _ (
      put-IsPruned t t id n (record n { content = content }) found
        (record { content = thin; children = λ k c e. e }) (IsPruned-refl t))

  -- The frame of the lock system.
  abbrev pub locking : ℕ → Frame Bytes (List (DavLock Element)) IsThinned
  locking limit = record {
    limit = limit;
    kept = IsExclusive;
    unlinked = unlink-IsExclusive;
    forgotten = forget-IsExclusive;
    written = thin-IsExclusive;
  }

-- A tree of locks that exclude one another, and the next identifier.
abbrev pub IsLocksAt : {Element : Type 0} → ℕ → Locks Element → Type 0
IsLocksAt bound t = IsTreeAt (locking bound) t
