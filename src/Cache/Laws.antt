-- ===== src/Cache/Laws.antt =====
-- concurrent.go: what a read of the cache finds after each of its writing methods.
use migration_manager.Prelude.{◌≡◌, if◌then◌else◌, arith}
use migration_manager.Prelude.Map.{Eq, Map, lookup-insert, lookup-erase}
use migration_manager.Cache.{read, write, put, delete}

module _ {K V : Type 0} ⦃e : Eq K⦄ where
  pub read-write :
      (z : V) (k j : K) (v : V) (f : V → V → V) (c : Map K V)
      → read z j (write z k v f c) ≡ (if e.beq k j then f (read z k c) v else read z j c)
  unfolding read write
  read-write z k j v f c = rw (lookup-insert k j (f (read z k c) v) c, read) (ground arith)

  pub read-put :
      (z : V) (k j : K) (v : V) (c : Map K V)
      → read z j (put k v c) ≡ (if e.beq k j then v else read z j c)
  unfolding read put
  read-put z k j v c = rw (lookup-insert k j v c, read) (ground arith)

  pub read-delete :
      (z : V) (k j : K) (c : Map K V)
      → read z j (delete k c) ≡ (if e.beq k j then z else read z j c)
  unfolding read delete
  read-delete z k j c = rw (lookup-erase k j c, read) (ground arith)
