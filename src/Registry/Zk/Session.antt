-- ===== src/Registry/Zk/Session.antt =====
-- What registry_zk.go relies on of a session of ZooKeeper that is connected.
use go_moa.Base.{
  [], Bool, true, false, ◌≡◌, Text, Option, none, some, Lacks, text_eq, if◌then◌else◌,
}
use go_moa.Zookeeper.{Conn}
use go_moa.Registry.Zk.{addr_path}

pub record Node : Type 0 where
  pub content : Text
  pub ephemeral : Bool

abbrev pub is_some : Option Node → Bool
is_some none = false
is_some (some _) = true

-- The nodes of a state, and what the calls read and change of them: a node can be created under one
-- that is not ephemeral or under
-- the root, and an ephemeral node, which is never written again, can be deleted.
pub record Session (conn : Conn) : Type 0 where
  pub node : Text → conn.State → Option Node
  pub exists-node : (p : Text) (s : conn.State) → (conn.exists p s).0 ≡ some (is_some (node p s))
  pub exists_keeps : (p q : Text) (s : conn.State) → node q (conn.exists p s).1 ≡ node q s
  pub get-node :
      (p : Text) (s : conn.State) (n : Node)
      → node p s ≡ some n
      → (conn.get_w p s).0 ≡ some n.content
  pub create_ok :
      (dir name content : Text) (e : Bool) (s : conn.State) (n : Node)
      → node dir s ≡ some n
      → n.ephemeral ≡ false
      → Lacks b'/' name
      → node (addr_path dir name) s ≡ none
      → (conn.create (addr_path dir name) content e s).0 ≡ true
  pub create_ok_root :
      (name content : Text) (e : Bool) (s : conn.State)
      → Lacks b'/' name
      → node (addr_path [] name) s ≡ none
      → (conn.create (addr_path [] name) content e s).0 ≡ true
  pub create-node :
      (p q content : Text) (e : Bool) (s : conn.State)
      → (conn.create p content e s).0 ≡ true
      → node q (conn.create p content e s).1
        ≡ (if text_eq p q then some (record { content = content; ephemeral = e }) else node q s)
  pub delete_ok :
      (p : Text) (s : conn.State) (n : Node)
      → node p s ≡ some n
      → n.ephemeral ≡ true
      → (conn.delete p s).0 ≡ true
  pub delete-node :
      (p q : Text) (s : conn.State)
      → (conn.delete p s).0 ≡ true
      → node q (conn.delete p s).1 ≡ (if text_eq p q then none else node q s)
  pub delete_none :
      (p q : Text) (s : conn.State) → node p s ≡ none → node q (conn.delete p s).1 ≡ node q s
