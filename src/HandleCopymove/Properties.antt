-- ===== src/HandleCopymove/Properties.antt =====
-- src/handle_copymove.rs: the properties of a copied collection. No error has the status of a success.
use dav_server_rs.Common.{
  Bool, ℕ, true, false, Option, some, List, [], ◌∷◌, Result, ok, nat_eq, inl, inr, Bool-cases,
  Result-cases, Bool,
}
use dav_server_rs.DavPath.{DavPath}
use dav_server_rs.Errors.{DavError, statuscode}
use dav_server_rs.Fs.{DavProp}
use dav_server_rs.Fs.Guarded.{DavMetaData, GuardedFileSystem, Call}
use dav_server_rs.Fs.Kinds.{is_success, CollectionKind, resolve_collection_kind}
use dav_server_rs.HandleCopymove.{
  asking, check_statuses, replace_props, replacement, mark_kind, copy_collection_properties,
}
use dav_server_rs.HandleCopymove.Sends.{FailsOnly}
use dav_server_rs.HandleDelete.Reports.{statuscode-IsFailure}
use dav_server_rs.Tree.Ends.{Ends, Ends-next}
use dav_server_rs.Tree.Monad.{Action, lift, ◌>>=◌}

check_statuses-FailsOnly : (xs : List (ℕ × DavProp)) → FailsOnly (check_statuses xs)
unfolding check_statuses statuscode
check_statuses-FailsOnly [] = tt
check_statuses-FailsOnly ((code, p) ∷ xs) = elim (Bool-cases (is_success code)) [
  | inl good ↦ rw (good, check_statuses) (check_statuses-FailsOnly xs)
  | inr bad ↦ rw (bad, check_statuses) bad
]

module _ {S : Type 0} where
  -- An action whose errors have no status of a success.
  abbrev pub FailsWell : {A : Type 0} → Option (Result A DavError × S) → Type 0
  FailsWell o = Ends (λ r _. FailsOnly r) o

  asking-FailsWell :
      {A : Type 0} (call : Call S A) (k : A → Action S DavError (Unit {0})) (s : S)
      → ((a : A) (s : S) → FailsWell (k a s))
      → FailsWell ((asking call >>= k) s)
  asking-FailsWell call k s h = elim (Result-cases (call s).0) [
    | inl (a, e) ↦ rw (e, Ends) (h a (call s).1)
    | inr (fault, e) ↦ rw (e, Ends) (statuscode-IsFailure fault)
  ]

  module _ (fs : GuardedFileSystem S) where
    patched-FailsWell :
        (dest : DavPath) (patch : List (Bool × DavProp)) (s : S)
        → FailsWell {A = Unit {0}} (elim patch [
          | [] ↦ some (ok tt, s)
          | p ∷ ps ↦
              (asking (fs.patch_props dest (p ∷ ps)) >>= λ statuses. lift (check_statuses statuses))
                s
        ])
    patched-FailsWell dest [] s = tt
    patched-FailsWell dest (p ∷ ps) s =
        asking-FailsWell (fs.patch_props dest (p ∷ ps)) (λ statuses. lift (check_statuses statuses))
          s (λ statuses _. check_statuses-FailsOnly statuses)

    replace_props-FailsWell :
        (source dest : DavPath) (s : S) → FailsWell (replace_props fs source dest s)
    replace_props-FailsWell source dest s = elim (Result-cases (fs.get_props source true s)) [
      | inr (fault, e) ↦ rw (e, Ends) (statuscode-IsFailure fault)
      | inl (source_props, e) ↦ elim (Result-cases (fs.get_props dest false s)) [
        | inr (fault, e') ↦ rw (e, e', Ends) (statuscode-IsFailure fault)
        | inl (dest_props, e') ↦
            rw (e, e', Ends) (patched-FailsWell dest (replacement dest_props source_props) s)
      ]
    ]

    mark_kind-FailsWell :
        (kind : CollectionKind) (dest : DavPath) (s : S) → FailsWell (mark_kind fs kind dest s)
    mark_kind-FailsWell CollectionKind.none dest s = tt
    mark_kind-FailsWell CollectionKind.calendar dest s =
        elim (Result-cases (fs.mark_calendar dest s).0) [
          | inl (a, e) ↦ rw (e, Ends) tt
          | inr (fault, e) ↦ rw (e, Ends) (statuscode-IsFailure fault)
        ]
    mark_kind-FailsWell CollectionKind.addressbook dest s =
        elim (Result-cases (fs.mark_addressbook dest s).0) [
          | inl (a, e) ↦ rw (e, Ends) tt
          | inr (fault, e) ↦ rw (e, Ends) (statuscode-IsFailure fault)
        ]

    pub copy_collection_properties-FailsWell :
        (source dest : DavPath) (meta : DavMetaData) (s : S)
        → FailsWell (copy_collection_properties fs source dest meta s)
    unfolding copy_collection_properties
    copy_collection_properties-FailsWell source dest meta s =
        Ends-next (λ r _. FailsOnly r) (λ r _. FailsOnly r) _ _
          (elim (Bool-cases (fs.have_props source s)) [
            | inl has ↦ rw has (replace_props-FailsWell source dest s)
            | inr lacks ↦ rw lacks tt
          ])
          (λ _ s' _. mark_kind-FailsWell (resolve_collection_kind fs source meta s) dest s')
          (λ e s' bad. bad)
