-- ===== src/Manager/Clients/Index.antt =====
-- The index from players to connections agrees with the connections.
use lsf.Prelude.{
  ℕ, Bool, true, false, ◌||◌, Option, none, some, List, [], ◌∷◌, ◌==◌, if◌then◌else◌, mem, map,
  arith, ◌≡◌, refl, Distinct, ap, sym, subst, Bool-cases, inl, inr,
}
use lsf.Prelude.Dict.{Dict}
use lsf.Prelude.Dict
use lsf.Manager.{Manager}
use lsf.Manager
use lsf.Manager.Clients.{
  ClientConn, ClientConnManager, emplace, erase_index, find_index_of, create_client_conn,
  release_found, release_client_conn, conn_of, get_client_conn, get_client_conn_by_uid,
}

-- Every entry of the index stands for a connection of that player.
abbrev pub Agree : Dict ClientConn → List (ℕ × ℕ) → Type 0
Agree conns [] = Unit {0}
Agree conns ((u, c) ∷ ix) =
    (Dict.find c conns ≡ some (record { conn_id = c; uid = u })) × Agree conns ix

abbrev pub indexed : List (ℕ × ℕ) → List ℕ
indexed = map (λ p. p.1)

-- The index agrees with the connections and has each connection once.
abbrev pub Indexed : ClientConnManager → Type 0
Indexed m = Agree m.conns.map m.uid_to_conn_id_index × Distinct (indexed m.uid_to_conn_id_index)

Agree-insert :
    (conn : ClientConn) (d : Dict ClientConn) (ix : List (ℕ × ℕ))
    → Dict.exist conn.conn_id d ≡ false
    → Agree d ix
    → Agree (Dict.insert conn.conn_id conn d) ix × (mem conn.conn_id (indexed ix) ≡ false)
Agree-insert conn d [] new a = (tt, refl)
Agree-insert conn d ((u, c) ∷ ix) new a = ground (
  arith,
  Agree-insert conn d ix new a.1,
  Dict.find-insert conn.conn_id c conn d,
  a.0,
  Dict.exist-none conn.conn_id d new,
)

Agree-emplace :
    (d : Dict ClientConn) (u c : ℕ) (ix : List (ℕ × ℕ))
    → Dict.find c d ≡ some (record { conn_id = c; uid = u })
    → Agree d ix
    → Agree d (emplace u c ix)
unfolding emplace
Agree-emplace d u c [] f a = (f, tt)
Agree-emplace d u c (p ∷ ix) f a = (a.0, Agree-emplace d u c ix f a.1)

mem-emplace :
    (j u c : ℕ) (ix : List (ℕ × ℕ))
    → mem j (indexed (emplace u c ix)) ≡ (mem j (indexed ix) || (j == c))
unfolding emplace
mem-emplace j u c [] = ground arith
mem-emplace j u c (p ∷ ix) = ground (arith, mem-emplace j u c ix)

Distinct-emplace :
    (u c : ℕ) (ix : List (ℕ × ℕ))
    → mem c (indexed ix) ≡ false
    → Distinct (indexed ix)
    → Distinct (indexed (emplace u c ix))
unfolding emplace
Distinct-emplace u c [] new d = (refl, tt)
Distinct-emplace u c ((v, b) ∷ ix) new d =
    (ground (arith, mem-emplace b u c ix, d.0), Distinct-emplace u c ix (ground arith) d.1)

-- A connection that goes takes its one entry with it.
Agree-erase :
    (u c : ℕ) (d : Dict ClientConn) (ix : List (ℕ × ℕ))
    → mem c (indexed ix) ≡ false
    → Agree d ix
    → Agree (Dict.erase c d) ix × (erase_index u c ix ≡ ix)
unfolding erase_index
Agree-erase u c d [] out a = (tt, refl)
Agree-erase u c d ((v, b) ∷ ix) out a =
    ground (arith, Agree-erase u c d ix, Dict.find-erase c b d, a)

Agree-erase_index :
    (u c : ℕ) (d : Dict ClientConn) (ix : List (ℕ × ℕ))
    → Dict.find c d ≡ some (record { conn_id = c; uid = u })
    → Distinct (indexed ix)
    → Agree d ix
    → Agree (Dict.erase c d) (erase_index u c ix)
unfolding erase_index
Agree-erase_index u c d [] f dis a = tt
Agree-erase_index u c d ((v, b) ∷ ix) f dis a = elim (Bool-cases (b == c)) [
  | inl same ↦
      let owner : v ≡ u = ground (arith, f, a.0, same) in
      let rest = Agree-erase u c d ix (ground (arith, dis.0, same)) a.1 in
      ground (arith, same, owner, rest)
  | inr other ↦
      ground (arith, other, Agree-erase_index u c d ix f dis.1 a.1, Dict.find-erase c b d, a.0)
]

mem-erase_index :
    (j u c : ℕ) (ix : List (ℕ × ℕ))
    → mem j (indexed ix) ≡ false
    → mem j (indexed (erase_index u c ix)) ≡ false
unfolding erase_index
mem-erase_index j u c [] h = refl
mem-erase_index j u c ((v, b) ∷ ix) h = ground (arith, mem-erase_index j u c ix)

Distinct-erase_index :
    (u c : ℕ) (ix : List (ℕ × ℕ)) → Distinct (indexed ix) → Distinct (indexed (erase_index u c ix))
unfolding erase_index
Distinct-erase_index u c [] d = tt
Distinct-erase_index u c ((v, b) ∷ ix) d =
    ground (arith, Distinct-erase_index u c ix d.1, mem-erase_index b u c ix d.0)

release_found-Indexed :
    (conn_id : ℕ) (o : Option ClientConn) (m : ClientConnManager)
    → m.enable_uid_index ≡ true
    → get_client_conn conn_id m ≡ o
    → ((c : ClientConn) → get_client_conn conn_id m ≡ some c → c.conn_id ≡ conn_id)
    → Indexed m
    → Indexed (release_found conn_id o m).1
      × (get_client_conn conn_id (release_found conn_id o m).1 ≡ none)
unfolding release_found get_client_conn Manager.erase
release_found-Indexed conn_id none m on f own i = (i, f)
release_found-Indexed conn_id (some conn) m on f own i =
    let mine : conn.conn_id ≡ conn_id = own conn f in
    let here : Dict.find conn_id m.conns.map ≡ some (record { conn_id = conn_id; uid = conn.uid }) =
      ground (arith, f, mine) in
    rw (on, mine)
      (
        (
          Agree-erase_index conn.uid conn_id m.conns.map m.uid_to_conn_id_index here i.1 i.0,
          Distinct-erase_index conn.uid conn_id m.uid_to_conn_id_index i.1,
        ),
        ground (arith, Dict.find-erase conn_id conn_id m.conns.map),
      )

find_index_of-Agree :
    (u c : ℕ) (d : Dict ClientConn) (ix : List (ℕ × ℕ))
    → Agree d ix
    → find_index_of u ix ≡ some c
    → Dict.find c d ≡ some (record { conn_id = c; uid = u })
unfolding find_index_of
find_index_of-Agree u c d [] a f = ground (arith, f)
find_index_of-Agree u c d ((v, b) ∷ ix) a f = elim (Bool-cases (v == u)) [
  | inl same ↦ let eq : b ≡ c = ground (arith, f, same) in ground (arith, a.0, same, eq)
  | inr other ↦ find_index_of-Agree u c d ix a.1 (ground (arith, f, other))
]

conn_of-Agree :
    (uid : ℕ) (o : Option ℕ) (c : ClientConn) (m : ClientConnManager)
    → Indexed m
    → find_index_of uid m.uid_to_conn_id_index ≡ o
    → conn_of o m ≡ some c
    → (c.uid ≡ uid) × (get_client_conn c.conn_id m ≡ some c)
unfolding conn_of get_client_conn
conn_of-Agree uid none c m i g f = ground (arith, f)
conn_of-Agree uid (some b) c m i g f =
    let there = find_index_of-Agree uid b m.conns.map m.uid_to_conn_id_index i.0 g in
    let eq : record { conn_id = b; uid = uid } ≡ c = ground (arith, there, f) in
    let num : b ≡ c.conn_id = ap (λ x. x.conn_id) eq in
    (sym (ap (λ x. x.uid) eq), subst (λ k. Dict.find k m.conns.map ≡ some c) num f)

-- With the index on and the id not in use, `CreateClientConn` leaves an index whose entries stand
-- for connections of their players, each connection at most once, if it was so before.
pub create_client_conn-Indexed :
    (head : ClientConn) (m : ClientConnManager)
    → m.enable_uid_index ≡ true
    → Manager.exist head.conn_id m.conns ≡ false
    → Indexed m
    → Indexed (create_client_conn head m).1
unfolding create_client_conn Manager.exist Manager.put
create_client_conn-Indexed head m on new i =
    let (agree, out) = Agree-insert head m.conns.map m.uid_to_conn_id_index new i.0 in
    let here : Dict.find head.conn_id (Dict.insert head.conn_id head m.conns.map) ≡ some head =
      ground (arith, Dict.find-insert head.conn_id head.conn_id head m.conns.map) in
    elim (Bool-cases (Manager.full m.conns)) [
      | inl full ↦ rw full i
      | inr room ↦
          rw (room, on)
            (
              Agree-emplace _ head.uid head.conn_id m.uid_to_conn_id_index here agree,
              Distinct-emplace head.uid head.conn_id m.uid_to_conn_id_index out i.1,
            )
    ]

-- With the index on and the connection, if there is one, stored under its own id,
-- `ReleaseClientConn` leaves an index whose entries stand for connections of their players, each
-- connection at most once, if it was so before, and the connection is gone.
pub release_client_conn-Indexed :
    (conn_id : ℕ) (m : ClientConnManager)
    → m.enable_uid_index ≡ true
    → ((c : ClientConn) → get_client_conn conn_id m ≡ some c → c.conn_id ≡ conn_id)
    → Indexed m
    → Indexed (release_client_conn conn_id m).1
      × (get_client_conn conn_id (release_client_conn conn_id m).1 ≡ none)
unfolding release_client_conn get_client_conn
release_client_conn-Indexed conn_id m on own i =
    release_found-Indexed conn_id (Dict.find conn_id m.conns.map) m on refl own i

some_of_test :
    (b : Bool) (o : Option ClientConn) (c : ClientConn)
    → (if b then o else none) ≡ some c
    → o ≡ some c
some_of_test true o c f = f
some_of_test false o c f = ground (arith, f)

-- With an index whose entries stand for connections of their players, a connection that
-- `GetClientConnByUid` gives is of the player that was asked for and is stored under its own id.
pub get_client_conn_by_uid-uid :
    (uid : ℕ) (c : ClientConn) (m : ClientConnManager)
    → Indexed m
    → get_client_conn_by_uid uid m ≡ some c
    → (c.uid ≡ uid) × (get_client_conn c.conn_id m ≡ some c)
unfolding get_client_conn_by_uid
get_client_conn_by_uid-uid uid c m i f =
    conn_of-Agree uid _ c m i refl (some_of_test m.enable_uid_index _ c f)
