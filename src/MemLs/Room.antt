-- ===== src/MemLs/Room.antt =====
-- src/memls.rs: where a new lock has room: it is added, and the locks exclude one another as before.
use dav_server_rs.Common.{
  ℕ, ◌≤◌, ◌<◌, ◌≡◌, sym, ap, subst, ◌∙◌, Bool, true, some, List, [], ◌∷◌, ◌++◌, Bytes, All,
  All-append, arith, nat_eq, list_eq, inl, inr, ◌==◌, Bool-cases,
}
use dav_server_rs.Common.Dict.{Dict, get}
use dav_server_rs.Ls.{DavLock}
use dav_server_rs.MemLs.Exclusion.{
  HasChild, Leads, stop, down, IsAbove, IsAbove-fewer, IsShared, AreAlike, AreCompatible,
  IsExclusive,
}
use dav_server_rs.MemLs.Walk.{Locks}
use dav_server_rs.Tree.{Node, put}
use dav_server_rs.Tree.Shape.{IsTree, IsLink, All-weaken, put-cases}

pub All-get :
    (P : ℕ → Type 0) (m : Dict Bytes ℕ) (k : Bytes) (i : ℕ)
    → All (λ b. P b.1) m
    → get m k ≡ some i
    → P i
unfolding get
All-get P [] k i h e = absurd (ground arith)
All-get P ((j, c) ∷ m) k i (p, h) e = elim (Bool-cases (j == k)) [
  | inl here ↦ subst P {x = c} (ground arith) p
  | inr there ↦ All-get P m k i h (ground arith)
]

module _ {Element : Type 0} where
  pub HasChild-IsLink : (t : Locks Element) (i c : ℕ) → IsTree t → HasChild t i c → IsLink t i c
  HasChild-IsLink t i c w (n, key, found, linked) =
      All-get (IsLink t i) n.children key c (w.linked i n found).0 linked

  -- A node has one parent.
  pub HasChild-unique :
      (t : Locks Element) (i j c : ℕ) → IsTree t → HasChild t i c → HasChild t j c → i ≡ j
  HasChild-unique t i j c w link link' =
      let l = HasChild-IsLink t i c w link in
      let l' = HasChild-IsLink t j c w link' in
      let same : some l.node ≡ some l'.node = sym l.present ∙ l'.present in
      let one : l.node ≡ l'.node = cc in
      sym l.named ∙ ap (λ (m : Node Bytes (List (DavLock Element))). m.parent_id) one ∙ l'.named

  Leads-later : (t : Locks Element) (i j : ℕ) → IsTree t → Leads t i j → i ≤ j
  Leads-later t i _ w stop = omega arith
  Leads-later t i _ w (down {j = j} {c = c} way link) =
      omega (arith, Leads-later t i j w way, (HasChild-IsLink t j c w link).later)

  pub IsAbove-later : (t : Locks Element) (i j : ℕ) → IsTree t → IsAbove t i j → i < j
  IsAbove-later t i j w (k, way, link) =
      omega (arith, Leads-later t i k w way, (HasChild-IsLink t k j w link).later)

  module _ (shared deep : Bool) where
    -- A lock that a new one of this kind may stand beside.
    abbrev pub Fits : DavLock Element → Type 0
    Fits l = IsShared l × (shared ≡ true)

    abbrev pub FitsWhereDeep : DavLock Element → Type 0
    FitsWhereDeep l = l.deep ≡ true → Fits l

    abbrev pub AreFittingBelow : Locks Element → ℕ → Type 0
    AreFittingBelow t id =
        (j : ℕ) (m : Node Bytes (List (DavLock Element)))
        → IsAbove t id j
        → get t.nodes j ≡ some m
        → All Fits m.content

    abbrev pub AreFittingAbove : Locks Element → ℕ → Type 0
    AreFittingAbove t id =
        (i : ℕ) (m : Node Bytes (List (DavLock Element)))
        → IsAbove t i id
        → get t.nodes i ≡ some m
        → All FitsWhereDeep m.content

    -- A node with room for a lock of this kind.
    pub record HasRoom (t : Locks Element) (id : ℕ) (n : Node Bytes (List (DavLock Element)))
        : Type 0 where
      pub own : All Fits n.content
      pub above : AreFittingAbove t id
      pub below : deep ≡ true → AreFittingBelow t id

    module _ (l : DavLock Element) (as_shared : l.shared ≡ shared) (as_deep : l.deep ≡ deep) where
      alike_with :
          (content : List (DavLock Element)) → All Fits content → AreAlike (content ++ l ∷ [])
      alike_with [] h = inl (omega arith)
      alike_with (x ∷ content) ((a, b), h) = inr (
        a,
        All-append IsShared content (l ∷ [])
            (All-weaken Fits IsShared content (λ _ (shares, _). shares) h) (as_shared ∙ b, tt),
      )

      compatible_above :
          (above below : List (DavLock Element))
          → AreCompatible above below
          → All FitsWhereDeep above
          → AreCompatible above (below ++ l ∷ [])
      compatible_above [] below h k = tt
      compatible_above (x ∷ above) below (p, h) (f, k) = (
        λ is_deep.
            All-append (λ l'. IsShared x × IsShared l') below (l ∷ []) (p is_deep)
              (((f is_deep).0, as_shared ∙ (f is_deep).1), tt),
        compatible_above above below h k,
      )

      compatible_below :
          (above below : List (DavLock Element))
          → AreCompatible above below
          → (deep ≡ true → All Fits below)
          → AreCompatible (above ++ l ∷ []) below
      compatible_below above below h k =
          All-append (λ x. x.deep ≡ true → All (λ l'. IsShared x × IsShared l') below) above
            (l ∷ []) h
            (
              λ is_deep.
                  All-weaken Fits (λ l'. IsShared l × IsShared l') below
                    (λ _ (shares, b). (as_shared ∙ b, shares)) (k (sym as_deep ∙ is_deep)),
              tt,
            )

      -- A lock is added where it has room.
      pub add-IsExclusive :
          (t : Locks Element) (id : ℕ) (n : Node Bytes (List (DavLock Element)))
          → IsTree t
          → get t.nodes id ≡ some n
          → HasRoom t id n
          → IsExclusive t
          → IsExclusive (put id (record n { content = n.content ++ l ∷ [] }) t)
      add-IsExclusive t id n w found room h = record {
        alike = λ i m there. elim (put-cases t id n new found i m there) [
          | inl (_, e) ↦
              subst (λ (m : Node Bytes (List (DavLock Element))). AreAlike m.content) e
                (alike_with n.content room.own)
          | inr (_, old) ↦ h.alike i m old
        ];
        compatible = λ i j m m' up there there'.
            let up_old = IsAbove-fewer t (put id new t) i j links up in
            let before = IsAbove-later t i j w up_old in
            elim (put-cases t id n new found i m there) [
              | inl (here, e) ↦ elim (put-cases t id n new found j m' there') [
                | inl (here', _) ↦ absurd (omega (arith, here, here', before))
                | inr (_, old) ↦
                    let up_id = subst (λ i. IsAbove t i j) (sym here) up_old in
                    subst
                      (λ (m : Node Bytes (List (DavLock Element))).
                        AreCompatible m.content m'.content)
                      e
                      (compatible_below n.content m'.content
                        (h.compatible id j n m' up_id found old)
                        (λ is_deep. room.below is_deep j m' up_id old))
              ]
              | inr (_, old) ↦ elim (put-cases t id n new found j m' there') [
                | inl (here', e) ↦
                    let up_id = subst (IsAbove t i) (sym here') up_old in
                    subst
                      (λ (m' : Node Bytes (List (DavLock Element))).
                        AreCompatible m.content m'.content)
                      e
                      (compatible_above m.content n.content (h.compatible i id m n up_id old found)
                        (room.above i m up_id old))
                | inr (_, old') ↦ h.compatible i j m m' up_old old old'
              ]
            ];
      }
        where
          new : Node Bytes (List (DavLock Element))
          new = record n { content = n.content ++ l ∷ [] }

          links : (k c : ℕ) → HasChild (put id new t) k c → HasChild t k c
          links k c (m, key, there, linked) = elim (put-cases t id n new found k m there) [
            | inl (here, e) ↦ (
              n,
              key,
              subst (λ k. get t.nodes k ≡ some n) here found,
              subst (λ (m : Node Bytes (List (DavLock Element))). get m.children key ≡ some c)
                  (sym e) linked,
            )
            | inr (_, old) ↦ (m, key, old, linked)
          ]
