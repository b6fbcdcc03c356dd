-- ===== src/Registry/Zk/Events/Lost.antt =====
-- Events of the session at listenEvent of zk.go.
use go_moa.Base.{
  Bool, false, ◌≡◌, refl, Text, Option, List, [], ◌∷◌, All, any, has_infix, has_prefix,
}
use go_moa.Zookeeper.{Conn, done}
use go_moa.Registry.Zk.{Json, ZkRegistry}
use go_moa.Registry.Zk.Index.Opened.{Named, Opens, watched-Named}
use go_moa.Registry.Zk.Events.{Event, listen_event}

none_inside : (ks : List Text) → All Named ks → any (λ k. has_infix [] k) ks ≡ false
unfolding has_infix has_prefix
none_inside [] h = refl
none_inside ([] ∷ ks) h = absurd (h.0 refl)
none_inside ((c ∷ k) ∷ ks) h = none_inside ks h.1

-- An event with an empty path, as those of the session are, finds no watcher in any registry that
-- NewZkRegistry opened, so nothing is done for it, an expired session included.
pub empty_path_ignored :
    (conn : Conn) (json : Json) (connect : List Text → Option conn.State) (reg_addr : Text)
    (service : List Text) (server_model : Bool) (r : ZkRegistry) (s now : conn.State) (e : Event)
    → Opens conn json connect reg_addr service server_model r s
    → e.path ≡ []
    → listen_event conn json e r now ≡ done r now
unfolding listen_event
empty_path_ignored conn json connect reg_addr service server_model r s now e o p =
    rw
      (
        p,
        none_inside r.watched (watched-Named conn json connect reg_addr service server_model r s o),
        listen_event,
      )
      refl
