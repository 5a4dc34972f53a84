-- ===== src/MemFs/File.antt =====
-- src/memfs.rs: an open file. The state is the tree and the file's own position. `reserves n` says
-- whether an allocation of n more bytes succeeds.
use dav_server_rs.Common.{
  ℕ, zero, suc, ◌+◌, ◌-◌, Bool, true, false, not, Option, none, some, List, [], ◌∷◌, ◌++◌, Result,
  ok, err, Bytes, if◌then◌else◌, ltb, leb, min, length, take, drop, concat, saturating_add, zeros,
  checked_add, checked_sub,
}
use dav_server_rs.Common
use dav_server_rs.Fs.{FsError, general_failure, too_large, insufficient_storage}
use dav_server_rs.Conditional.{SystemTime}
use dav_server_rs.MemFs.{FsTree, MemFsFile, MemFsFileNode, as_file, file}
use dav_server_rs.Tree.{get_node, set_node}
use dav_server_rs.Tree.Monad.{Action}

abbrev pub FileAction : Type 0 → Type 0
FileAction A = Action (FsTree × MemFsFile) FsError A

abbrev pub find_file : FsTree → MemFsFile → Result MemFsFileNode FsError
find_file t f = Common.◌>>=◌ (get_node f.node_id t) as_file

unfoldable pub read_bytes : ℕ → FileAction Bytes
read_bytes count (t, f) = elim (find_file t f) [
  | err e ↦ some (err e, (t, f))
  | ok n ↦
      (let curlen = length n.contents in
        let start = min f.pos curlen in
        let end = min (saturating_add f.pos count) curlen in
        let cnt = end - start in
        some (ok (take cnt (drop start n.contents)), (t, record f { pos = f.pos + cnt })))
]

-- `data[pos..end].copy_from_slice(&buf)`
unfoldable pub copy_at : ℕ → Bytes → Bytes → Bytes
copy_at pos buf contents = take pos contents ++ (buf ++ drop (pos + length buf) contents)

-- Where a write begins.
abbrev pub write_pos : MemFsFile → MemFsFileNode → ℕ
write_pos f n = if f.append then length n.contents else f.pos

module _ (reserves : ℕ → Bool) where
  unfoldable pub grow_to : Bytes → ℕ → Result Bytes FsError
  grow_to contents end =
      if ltb (length contents) end
      then (if reserves (end - length contents)
          then ok (contents ++ zeros (end - length contents))
          else err insufficient_storage)
      else ok contents

  -- The bytes of the file and the end of what is written, or the error.
  unfoldable pub overwrite : ℕ → Bytes → Bytes → Result (Bytes × ℕ) FsError
  overwrite pos buf contents = elim (checked_add pos (length buf)) [
    | none ↦ err too_large
    | some end ↦ Common.◌>>=◌ (grow_to contents end) (λ grown. ok (copy_at pos buf grown, end))
  ]

  unfoldable pub write_bytes : SystemTime → Bytes → FileAction (Unit {0})
  write_bytes now buf (t, f) = elim (find_file t f) [
    | err e ↦ some (err e, (t, f))
    | ok n ↦
        (let pos = write_pos f n in
          elim (overwrite pos buf n.contents) [
            | err e ↦ some (err e, (t, record f { pos = pos }))
            | ok (contents, end) ↦
                elim (set_node f.node_id (file (record n { contents = contents; mtime = now })) t) [
                  | none ↦ none
                  | some (r, t') ↦ some (r, (t', record f { pos = end }))
                ]
          ])
  ]

-- The offset of a seek, an `i64`.
pub data SeekFrom : Type 0 where
  from_start : ℕ → SeekFrom
  current_forward current_back end_forward end_back : ℕ → SeekFrom

-- The position that is sought from, and the offset from it.
unfoldable pub sought : ℕ → ℕ → SeekFrom → Option ℕ
sought pos curlen (from_start n) = some n
sought pos curlen (current_forward n) = checked_add pos n
sought pos curlen (current_back n) = checked_sub pos n
sought pos curlen (end_forward n) = checked_add curlen n
sought pos curlen (end_back n) = checked_sub curlen n

unfoldable pub seek : SeekFrom → FileAction ℕ
seek (from_start n) (t, f) = some (ok n, (t, record f { pos = n }))
seek from (t, f) = elim (length_from from) [
  | err e ↦ some (err e, (t, f))
  | ok curlen ↦ elim (sought f.pos curlen from) [
    | none ↦ some (err general_failure, (t, f))
    | some npos ↦ some (ok npos, (t, record f { pos = npos }))
  ]
]
  where
    -- The length of the file, where the offset is from its end.
    length_from : SeekFrom → Result ℕ FsError
    length_from (from_start n) = ok 0
    length_from (current_forward n) = ok 0
    length_from (current_back n) = ok 0
    length_from end_offset = Common.◌>>=◌ (find_file t f) (λ n. ok (length n.contents))
