-- ===== src/HandleCopymove/Replacing.antt =====
-- src/handle_copymove.rs: the stream of a COPY or a MOVE that ends without an error.
use dav_server_rs.Common.{
  ℕ, refl, Bool, false, not, ◌&&◌, ◌||◌, Option, Result, ok, err, inl, inr, ap,
}
use dav_server_rs.DavHeaders.Values.{Depth, infinity}
use dav_server_rs.DavPath.{DavPath}
use dav_server_rs.Errors.{DavError}
use dav_server_rs.Fs.{FsError}
use dav_server_rs.Fs.Guarded.{DavMetaData, GuardedFileSystem}
use dav_server_rs.HandleCopymove.{calling, do_move}
use dav_server_rs.HandleCopymove.Checks.{Found}
use dav_server_rs.HandleCopymove.Completing.{IsCalled-ok, calling-OnOk, do_copy-Copies}
use dav_server_rs.HandleCopymove.Copied.{IsCleared, IsTransferred, IsReplaced}
use dav_server_rs.HandleCopymove.Handler.{clear_destination, transfer, replace}
use dav_server_rs.HandleDelete.{delete_items, delete_locks, is_zero}
use dav_server_rs.HandleDelete.Removing.{delete_items-Removes}
use dav_server_rs.Ls.{DavLockSystem}
use dav_server_rs.MultiError.{MultiError}
use dav_server_rs.Tree.Ends.{OnOk, OnOk-next, OnOk-weaken, if-OnOk}
use dav_server_rs.Util.{DavMethod, is_copy}

module _ {S Element : Type 0} (fs : GuardedFileSystem S) (ls : Option (DavLockSystem S Element))
    (ensure_visible : DavPath → S → Result (Unit {0}) DavError) where
  clear_destination-OnOk :
      (fuel : ℕ) (overwrite : Bool) (depth : Depth) (is_file : Bool)
      (meta : Result DavMetaData FsError) (dest : DavPath) (t : MultiError S)
      → OnOk
          (λ _ m.
            IsCleared fs ls ensure_visible overwrite depth
              (record { is_file = is_file; meta = meta })
              dest
              t.inner
              m.inner)
          (clear_destination fs ls ensure_visible fuel overwrite depth
            (record { is_file = is_file; meta = meta })
            dest
            t)
  unfolding clear_destination
  clear_destination-OnOk fuel overwrite depth is_file (err fault) dest t = inr (refl, refl)
  clear_destination-OnOk fuel overwrite depth is_file (ok dmeta) dest t =
      let Q : Unit {0} → MultiError S → Type 0 = λ _ m.
        IsCleared fs ls ensure_visible overwrite depth
          (record { is_file = is_file; meta = ok dmeta }) dest t.inner m.inner in
      if-OnOk Q (overwrite && (not (is_zero depth) || is_file)) _ _ t
        (λ clears.
          OnOk-next _ Q (delete_items fs fuel infinity dmeta dest t) _
            (delete_items-Removes fs fuel infinity dmeta dest t)
            (λ _ u gone. inl (clears, dmeta, u.inner, refl, gone, refl)))
        (λ keeps. inr (keeps, refl))

  transfer-OnOk :
      (fuel : ℕ) (method : DavMethod) (path dest : DavPath) (depth : Depth) (t : MultiError S)
      → OnOk
          (λ _ m. IsTransferred fs ls ensure_visible method path dest depth t.inner m.inner)
          (transfer fs ls ensure_visible fuel method path dest depth t)
  unfolding transfer do_move
  transfer-OnOk fuel method path dest depth t =
      let Q : Unit {0} → MultiError S → Type 0 =
        λ _ m. IsTransferred fs ls ensure_visible method path dest depth t.inner m.inner in
      if-OnOk Q (is_copy method) _ _ t
        (λ copies.
          OnOk-weaken _ Q _ (do_copy-Copies fs ensure_visible dest depth fuel path dest t)
            (λ _ m done. inl (copies, done)))
        (λ moves.
          OnOk-next _ Q (calling path (λ _. false) (fs.rename path dest) t) _
            (calling-OnOk path (λ _. false) (fs.rename path dest) t)
            (λ _ u (same, called).
              inr (moves, IsCalled-ok _ called, ap (delete_locks fs ls path) same)))

  -- Where the stream ends without an error, the destination was cleared, if it was to be, and the source
  -- was then copied or moved.
  pub replace-IsReplaced :
      (fuel : ℕ) (method : DavMethod) (overwrite : Bool) (depth : Depth) (found : Found)
      (path dest : DavPath) (t : MultiError S)
      → OnOk
          (λ _ m.
            IsReplaced fs ls ensure_visible method overwrite depth found path dest t.inner m.inner)
          (replace fs ls ensure_visible fuel method overwrite depth found path dest t)
  replace-IsReplaced fuel method overwrite depth found path dest t =
      let Q : Unit {0} → MultiError S → Type 0 = λ _ m.
        IsReplaced fs ls ensure_visible method overwrite depth found path dest t.inner m.inner in
      OnOk-next _ Q (clear_destination fs ls ensure_visible fuel overwrite depth found dest t) _
        (clear_destination-OnOk fuel overwrite depth found.is_file found.meta dest t)
        (λ _ u cleared.
          OnOk-weaken _ Q _ (transfer-OnOk fuel method path dest depth u)
            (λ _ m done. (u.inner, cleared, done)))
