-- ===== src/Tests/Files.antt =====
-- Runs of src/memfs.rs, and its properties at an input.
use dav_server_rs.Common.{◌≡◌, refl, true, false, some, [], ◌∷◌, ok, codes, length}
use dav_server_rs.Common.Dict.{get, insert}
use dav_server_rs.Conditional.{after_epoch}
use dav_server_rs.HandlePut.{resulting_resource_size}
use dav_server_rs.MemFs
use dav_server_rs.MemFs.{
  FsTree, MemFsFile, MemFsFileNode, OpenOptions, do_open, create_dir, as_file,
}
use dav_server_rs.MemFs.File.{write_bytes, read_bytes, find_file, write_pos}
use dav_server_rs.MemFs.Contents.{read_bytes-write_bytes, write_bytes-eq-resulting_resource_size}
use dav_server_rs.Tree

-- A file of 5 bytes, open at its position 3.
abbrev opened : MemFsFile
opened = record { node_id = 2; pos = 3; append = false }

abbrev hello : MemFsFileNode
hello = record {
  props = [];
  mtime = after_epoch 0;
  crtime = after_epoch 0;
  contents = codes "hello";
}

abbrev tree_with : MemFsFileNode → FsTree
tree_with f = record {
  nodes =
      (
        1,
        record {
          content = MemFs.new_dir (after_epoch 0);
          id = 1;
          parent_id = 0;
          children = (codes "f", 2) ∷ [];
        },
      )
      ∷ (2, record { content = MemFs.file f; id = 2; parent_id = 1; children = [] })
      ∷ [];
  node_id = 3;
}

abbrev rewritten : MemFsFileNode
rewritten = record hello { contents = codes "help me"; mtime = after_epoch 7 }

found : find_file (tree_with hello) opened ≡ ok hello
unfolding Tree.get_node get as_file
found = refl

wrote :
    write_bytes (λ _. true) (after_epoch 7) (codes "p me") (tree_with hello, opened)
    ≡ some (ok tt, (tree_with rewritten, record opened { pos = 7 }))
unfolding write_bytes MemFs.File.overwrite MemFs.File.grow_to MemFs.File.copy_at Tree.get_node
    Tree.set_node get insert as_file
wrote = refl

read_bytes-write_bytes_example :
    read_bytes 4 (tree_with rewritten, record opened { pos = 3 })
    ≡ some (ok (codes "p me"), (tree_with rewritten, record opened { pos = 7 }))
read_bytes-write_bytes_example =
    read_bytes-write_bytes (λ _. true) (after_epoch 7) (codes "p me") (tree_with hello) opened hello
      found wrote

write_bytes-eq-resulting_resource_size_example :
    (m : MemFsFileNode) × (find_file (tree_with rewritten) opened ≡ ok m)
    × (length m.contents ≡ resulting_resource_size true false 5 3 4)
write_bytes-eq-resulting_resource_size_example =
    write_bytes-eq-resulting_resource_size (λ _. true) (after_epoch 7) (codes "p me")
      (tree_with hello) opened hello found wrote
