-- ===== src/Manager/Clients.antt =====
-- `ClientConnManager` of dev/svr/common/client_conn_manager.cpp. The callbacks are outside: the
-- list of the connections they get is returned.
pub mod Index
use lsf.Prelude.{
  ℕ, ◌+◌, ◌≤◌, ◌<◌, Bool, true, false, not, ◌&&◌, ◌||◌, Option, none, some, List, [], ◌∷◌, ◌++◌,
  ◌==◌, ltb, leb, if◌then◌else◌, length, mem, map, arith, ◌≡◌, ◌≢◌, refl, Bool-cases, inl, inr, ◌∙◌,
  ap, sym,
}
use lsf.Prelude.Dict.{Dict}
use lsf.Prelude.Dict
use lsf.Manager.{Manager}
use lsf.Manager

-- The fields of the head of a connection that the manager reads.
pub record ClientConn : Type 0 where
  pub conn_id : ℕ
  pub uid : ℕ

-- The index is a multimap: a list of pairs of a uid and a connection id.
pub record ClientConnManager : Type 0 where
  pub conns : Manager ClientConn
  pub enable_uid_index : Bool
  pub uid_to_conn_id_index : List (ℕ × ℕ)

-- An entry goes after those of the same key.
unfoldable pub emplace : ℕ → ℕ → List (ℕ × ℕ) → List (ℕ × ℕ)
emplace uid conn [] = (uid, conn) ∷ []
emplace uid conn ((u, c) ∷ ix) = (u, c) ∷ emplace uid conn ix

-- The first entry of the pair is erased.
unfoldable pub erase_index : ℕ → ℕ → List (ℕ × ℕ) → List (ℕ × ℕ)
erase_index uid conn [] = []
erase_index uid conn ((u, c) ∷ ix) =
    if (u == uid) && (c == conn) then ix else (u, c) ∷ erase_index uid conn ix

unfoldable pub find_index_of : ℕ → List (ℕ × ℕ) → Option ℕ
find_index_of uid [] = none
find_index_of uid ((u, c) ∷ ix) = if u == uid then some c else find_index_of uid ix

-- The connection that is made, if there is room, and the manager.
unfoldable pub create_client_conn :
    ClientConn → ClientConnManager → Option ClientConn × ClientConnManager
create_client_conn head m = if Manager.full m.conns then (none, m) else (
  some head,
  record m {
    conns = Manager.put head.conn_id head m.conns;
    uid_to_conn_id_index =
        if m.enable_uid_index
        then emplace head.uid head.conn_id m.uid_to_conn_id_index
        else m.uid_to_conn_id_index;
  },
)

-- The connection is reported, taken out of the index, if there is one, and freed.
unfoldable pub release_found :
    ℕ → Option ClientConn → ClientConnManager → Option ClientConn × ClientConnManager
release_found conn_id none m = (none, m)
release_found conn_id (some conn) m = (
  some conn,
  record m {
    conns = Manager.erase conn_id m.conns;
    uid_to_conn_id_index =
        if m.enable_uid_index
        then erase_index conn.uid conn.conn_id m.uid_to_conn_id_index
        else m.uid_to_conn_id_index;
  },
)

-- The connection whose close is reported, and the manager.
unfoldable pub release_client_conn : ℕ → ClientConnManager → Option ClientConn × ClientConnManager
release_client_conn conn_id m = release_found conn_id (Dict.find conn_id m.conns.map) m

unfoldable pub get_client_conn : ℕ → ClientConnManager → Option ClientConn
get_client_conn conn_id m = Dict.find conn_id m.conns.map

unfoldable pub conn_of : Option ℕ → ClientConnManager → Option ClientConn
conn_of none m = none
conn_of (some conn_id) m = get_client_conn conn_id m

unfoldable pub get_client_conn_by_uid : ℕ → ClientConnManager → Option ClientConn
get_client_conn_by_uid uid m =
    if m.enable_uid_index then conn_of (find_index_of uid m.uid_to_conn_id_index) m else none
