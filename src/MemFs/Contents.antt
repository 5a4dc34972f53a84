-- ===== src/MemFs/Contents.antt =====
-- src/memfs.rs: what is written is read back.
use dav_server_rs.Common.{
  ℕ, zero, suc, ◌+◌, ◌-◌, ◌≤◌, ◌<◌, ◌≡◌, refl, subst, ap, ◌∙◌, sym, Bool, true, some, [], ◌∷◌, ◌++◌,
  ok, Bytes, arith, length, take, drop, min, zeros, length-zeros, length-append, append-nil,
  length-take, take-append, drop-append_take, inl, inr, Bool-cases, Option-cases, Result-cases, ltb,
  u64_limit, saturating_add, nat_eq,
}
use dav_server_rs.Common.Dict.{get, get-insert_self}
use dav_server_rs.Conditional.{SystemTime}
use dav_server_rs.HandlePut.{resulting_resource_size, max}
use dav_server_rs.MemFs.{FsTree, MemFsFile, MemFsFileNode, MemFsNode, as_file, file}
use dav_server_rs.MemFs.File.{
  grow_to, copy_at, overwrite, write_pos, write_bytes, read_bytes, find_file,
}
use dav_server_rs.Tree.{get_node, set_node, put}

length-drop : (n : ℕ) (s : Bytes) → length (drop n s) ≡ length s - n
length-drop zero s = omega arith
length-drop (suc n) [] = omega arith
length-drop (suc n) (x ∷ s) = omega (arith, length-drop n s)

module _ (pos : ℕ) (buf contents : Bytes) (fits : pos + length buf ≤ length contents) where
  length-copy_at : length (copy_at pos buf contents) ≡ length contents
  unfolding copy_at
  length-copy_at = omega (
    arith,
    length-append (take pos contents) (buf ++ drop (pos + length buf) contents),
    length-append buf (drop (pos + length buf) contents),
    length-take pos contents (omega arith),
    length-drop (pos + length buf) contents,
  )

  read-copy_at : take (length buf) (drop pos (copy_at pos buf contents)) ≡ buf
  unfolding copy_at
  read-copy_at =
      ap (λ s. take (length buf) s)
        (drop-append_take pos contents (buf ++ drop (pos + length buf) contents) (omega arith))
      ∙ take-append buf (drop (pos + length buf) contents)

module _ (reserves : ℕ → Bool) where
  -- The file grows to the end of what is written, if it was shorter.
  grow_to-grown :
      (contents : Bytes) (end : ℕ) {grown : Bytes}
      → grow_to reserves contents end ≡ ok grown
      → grown ≡ contents ++ zeros (end - length contents)
  unfolding grow_to
  grow_to-grown contents end {grown} h = elim (Bool-cases (ltb (length contents) end)) [
    | inl longer ↦ ground arith
    | inr fits ↦
        let same : contents ≡ grown = ground arith in
        let none_left : end - length contents ≡ 0 = ground arith in
        sym same ∙ sym (append-nil contents) ∙ ap (λ n. contents ++ zeros n) (sym none_left)
  ]

  length-grown :
      (contents : Bytes) (end : ℕ) {grown : Bytes}
      → grow_to reserves contents end ≡ ok grown
      → length grown ≡ max (length contents) end
  length-grown contents end {grown} h =
      ap length (grow_to-grown contents end h)
      ∙ length-append contents (zeros (end - length contents))
      ∙ ground (arith, length-zeros (end - length contents))

  -- What `overwrite` leaves: a file of the length that the size check of a PUT foresees, with the
  -- bytes written in their place.
  record IsWritten (pos : ℕ) (buf contents written : Bytes) (end : ℕ) : Type 0 where
    pub ends : end ≡ pos + length buf
    pub in_place : take (length buf) (drop pos written) ≡ buf
    pub size : length written ≡ max (length contents) (pos + length buf)
    pub in_range : end < u64_limit

  overwrite-IsWritten :
      (pos : ℕ) (buf contents : Bytes) {written : Bytes} {end : ℕ}
      → overwrite reserves pos buf contents ≡ ok (written, end)
      → IsWritten pos buf contents written end
  unfolding overwrite
  overwrite-IsWritten pos buf contents {written} {end} h =
      elim (Bool-cases (ltb (pos + length buf) u64_limit)) [
        | inr large ↦ absurd (ground arith)
        | inl small ↦ elim (Result-cases (grow_to reserves contents (pos + length buf))) [
          | inr (e, g) ↦ absurd (ground arith)
          | inl (grown, g) ↦
              let long = length-grown contents (pos + length buf) g in
              let fits : pos + length buf ≤ length grown = ground arith in
              let copied : copy_at pos buf grown ≡ written = ground arith in
              record {
                ends = ground arith;
                in_place =
                    ap (λ w. take (length buf) (drop pos w)) (sym copied)
                    ∙ read-copy_at pos buf grown fits;
                size = ap length (sym copied) ∙ length-copy_at pos buf grown fits ∙ long;
                in_range = ground arith;
              }
        ]
      ]

  get_node-set_node :
      (id : ℕ) (n : MemFsNode) (t t' : FsTree)
      → set_node id n t ≡ some (ok tt, t')
      → get_node id t' ≡ ok n
  unfolding set_node get_node
  get_node-set_node id n t t' h = elim (Option-cases (get t.nodes id)) [
    | inl missing ↦ absurd (ground arith)
    | inr (m, e) ↦
        subst (λ t. get_node id t ≡ ok n) {x = put id (record m { content = n }) t} {y = t'}
          (ground arith) (rw (get-insert_self t.nodes id (record m { content = n }), get_node) refl)
  ]

  -- The file behind a write that succeeds.
  record Wrote (buf : Bytes) (f : MemFsFile) (n : MemFsFileNode) (t' : FsTree) (f' : MemFsFile)
      : Type 0 where
    pub node : MemFsFileNode
    pub found : find_file t' f ≡ ok node
    pub moved : f' ≡ record f { pos = write_pos f n + length buf }
    pub written :
        IsWritten (write_pos f n) buf n.contents node.contents (write_pos f n + length buf)

  write_bytes-Wrote :
      (now : SystemTime) (buf : Bytes) (t : FsTree) (f : MemFsFile) (n : MemFsFileNode)
      {t' : FsTree} {f' : MemFsFile}
      → find_file t f ≡ ok n
      → write_bytes reserves now buf (t, f) ≡ some (ok tt, (t', f'))
      → Wrote buf f n t' f'
  unfolding write_bytes as_file
  write_bytes-Wrote now buf t f n {t'} {f'} found h =
      elim (Result-cases (overwrite reserves (write_pos f n) buf n.contents)) [
        | inr (e, o) ↦ absurd (ground arith)
        | inl ((written, end), o) ↦
            let new = file (record n { contents = written; mtime = now }) in
            let is_written = overwrite-IsWritten (write_pos f n) buf n.contents o in
            elim (Option-cases (set_node f.node_id new t)) [
              | inl stuck ↦ absurd (ground arith)
              | inr ((r, t''), e) ↦
                  let stored : set_node f.node_id new t ≡ some (ok tt, t') = ground arith in
                  let kept = get_node-set_node f.node_id new t t' stored in
                  record {
                    node = record n { contents = written; mtime = now };
                    found = rw kept refl;
                    moved = ground (arith, is_written.ends);
                    written =
                        subst (λ z. IsWritten (write_pos f n) buf n.contents written z)
                          is_written.ends is_written;
                  }
            ]
      ]

  -- After a write the file is as long as `resulting_resource_size` of a PUT foresees for a range: the
  -- write extends the file behind its end and shortens it never.
  pub write_bytes-eq-resulting_resource_size :
      (now : SystemTime) (buf : Bytes) (t : FsTree) (f : MemFsFile) (n : MemFsFileNode)
      {t' : FsTree} {f' : MemFsFile}
      → find_file t f ≡ ok n
      → write_bytes reserves now buf (t, f) ≡ some (ok tt, (t', f'))
      → (m : MemFsFileNode) × (find_file t' f ≡ ok m)
        × (length m.contents
            ≡ resulting_resource_size true f.append (length n.contents) f.pos (length buf))
  unfolding resulting_resource_size
  write_bytes-eq-resulting_resource_size now buf t f n found h =
      let w = write_bytes-Wrote now buf t f n found h in
      (w.node, w.found, ground (arith, w.written.size, w.written.in_range))

  read_bytes_of :
      (pos : ℕ) (buf : Bytes) (t : FsTree) (f : MemFsFile) (m : MemFsFileNode)
      → find_file t f ≡ ok m
      → pos + length buf ≤ length m.contents
      → pos + length buf < u64_limit
      → take (length buf) (drop pos m.contents) ≡ buf
      → read_bytes (length buf) (t, record f { pos = pos })
        ≡ some (ok buf, (t, record f { pos = pos + length buf }))
  unfolding read_bytes
  read_bytes_of pos buf t f m found fits small in_place =
      let start : min pos (length m.contents) ≡ pos = omega arith in
      let end : min (saturating_add pos (length buf)) (length m.contents) ≡ pos + length buf =
        ground arith in
      let count : pos + length buf - pos ≡ length buf = omega arith in
      rw (found, start, end, count, in_place, read_bytes) refl

  -- What is written is read back: a read of as many bytes from where the write began.
  pub read_bytes-write_bytes :
      (now : SystemTime) (buf : Bytes) (t : FsTree) (f : MemFsFile) (n : MemFsFileNode)
      {t' : FsTree} {f' : MemFsFile}
      → find_file t f ≡ ok n
      → write_bytes reserves now buf (t, f) ≡ some (ok tt, (t', f'))
      → read_bytes (length buf) (t', record f' { pos = write_pos f n }) ≡ some (ok buf, (t', f'))
  read_bytes-write_bytes now buf t f n {t'} {f'} found h =
      let w = write_bytes-Wrote now buf t f n found h in
      let pos = write_pos f n in
      subst (λ g. read_bytes (length buf) (t', record g { pos = pos }) ≡ some (ok buf, (t', g)))
        (sym w.moved)
        (read_bytes_of pos buf t' f w.node w.found (ground (arith, w.written.size))
          w.written.in_range w.written.in_place)
