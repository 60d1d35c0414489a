-- ===== src/Client/Put.antt =====
-- Client/ClientCpp.cpp: `Put`.
use asiaccs.Base.{ℕ, ◌+◌, ◌*◌, ◌/◌, ◌^◌}
use asiaccs.Base.{Bool, ◌||◌, not, none, some, [], ◌++◌}
use asiaccs.Base.{leb, ◌==◌, if◌then◌else◌}
use asiaccs.Base.{length}
use asiaccs.Base.{Outcome, ok, fault, ◌>>=◌, ◌>>◌, require}
use asiaccs.Base.{ltb}
use asiaccs.Proxy.Services.{Bytes, Backend}
use asiaccs.Proxy.{proxy_put}
use asiaccs.Fastore.Platform.{Platform}
use asiaccs.Fastore.Helper.{create_right}
use asiaccs.Client.Routing.{query}
use asiaccs.Client.{ClientCpp, bump, word_at, put_route, trapdoor, max_tdvalue_size}
use asiaccs.Client.{column_entry, equal_v1_entry, equal_v2_entry, order_entry}

-- Which indexes a row goes to.
pub record PutFlags : Type 0 where
  pub column_index : Bool
  pub equal_index_v1 : Bool
  pub equal_index_v2 : Bool
  pub ore_index : Bool

-- DEMO_SERVER_NUM, the length of the arrays of counters.
abbrev pub demo_server_num : ℕ
demo_server_num = 9

-- DEF_ORERIGHT_MAXSIZE and DEF_ORELEFT_MAXSIZE
abbrev pub max_ore_right : ℕ
max_ore_right = 32 + 64 / 8 * 2 ^ 8 * 32 / 2

abbrev pub max_ore_left : ℕ
max_ore_left = (32 + 32 + 32 / 8) * 32 / 2

module _ ⦃b : Backend⦄ where
  -- `ProxyPut(key, value, "", "")`
  abbrev pub send : b.Store → Bytes × Bytes → b.Store
  send s kv = proxy_put s kv.0 kv.1 [] []

  -- A client and the store of the server that it talks to.
  abbrev pub Session : Type 0
  Session = ClientCpp × b.Store

  unfoldable pub put_column : ℕ → Bytes → Bytes → Bytes → Session → Session
  unfolding column_entry
  put_column id table col td (client, s) =
      let c = client.column_counter id (table ++ col) in
      (
        record client { column_counter = bump client.column_counter id (table ++ col) },
        send s (column_entry client.keys table col td c),
      )

  unfoldable pub put_equal_v1 : ℕ → Bytes → Bytes → Bytes → Bytes → Session → Session
  unfolding equal_v1_entry
  put_equal_v1 id table col val td (client, s) =
      let c = client.equal_v1_counter id (table ++ col) in
      (
        record client { equal_v1_counter = bump client.equal_v1_counter id (table ++ col) },
        send s (equal_v1_entry client.keys table col val td c),
      )

  unfoldable pub put_equal_v2 : ℕ → Bytes → Bytes → Bytes → Bytes → Session → Session
  unfolding equal_v2_entry
  put_equal_v2 id table col val td (client, s) =
      let label = b.hmac client.keys.pk8 ((table ++ col) ++ val) in
      let c = client.equal_v2_counter id label in
      (
        record client { equal_v2_counter = bump client.equal_v2_counter id label },
        send s (equal_v2_entry client.keys table col val td c),
      )

  -- The right part comes from `OREHelper::CreateRight`, with the room of `m_szOreRight`.
  unfoldable pub put_order :
      ⦃p : Platform⦄ → Bool → ℕ → Bytes → Bytes → Bytes → Bytes → Session → Outcome Session
  unfolding order_entry
  put_order allocated id table col val td (client, s) = do
    require (leb 4 (length val))
    let c = client.order_counter id (table ++ col)
    let made =
        create_right allocated client.prg client.ore_helper max_ore_right table col c
          (word_at val 0)
    done ← made.0
    let counted = bump client.order_counter id (table ++ col)
    ok (
      record client { order_counter = counted; ore_helper = done.1; prg = made.1 },
      send s (order_entry client.keys table col done.0 td c),
    )

  -- `Put` on the chosen server: the indexes asked for, then the data. The counters are looked up
  -- without a check of the server, and the value is copied into `m_szTDValue` without one of its size. `encrypt` is `m_Encrypt` under `m_szPk5`, and
  -- `allocated` says that `malloc` succeeds.
  unfoldable pub put_on :
      ⦃p : Platform⦄
      → (Bytes → Bytes → Bytes)
      → Bool
      → ℕ
      → PutFlags
      → Bytes
      → Bytes
      → Bytes
      → Bytes
      → Session
      → Outcome Session
  unfolding trapdoor
  put_on encrypt allocated id flags table key col val session = do
    let td = trapdoor session.0.keys table key col
    let copied = flags.equal_index_v1 || flags.equal_index_v2
    let counted = flags.column_index || copied || flags.ore_index
    require (not counted || ltb id demo_server_num)
    require (not copied || leb (length (table ++ col) + length val) max_tdvalue_size)
    let s1 = if flags.column_index then put_column id table col td session else session
    let s2 = if flags.equal_index_v1 then put_equal_v1 id table col val td s1 else s1
    let s3 = if flags.equal_index_v2 then put_equal_v2 id table col val td s2 else s2
    s4 ← if flags.ore_index then put_order allocated id table col val td s3 else ok s3
    ok (s4.0, send s4.1 (td, encrypt session.0.keys.pk5 val))

  -- `Put`: the ring names the server; the others keep their stores.
  unfoldable pub put :
      ⦃p : Platform⦄
      → (Bytes → Bytes → Bytes)
      → Bool
      → PutFlags
      → Bytes
      → Bytes
      → Bytes
      → Bytes
      → ClientCpp
      → (ℕ → b.Store)
      → Outcome (ClientCpp × (ℕ → b.Store))
  unfolding put_on trapdoor
  put encrypt allocated flags table key col val client servers = do
    let td = trapdoor client.keys table key col
    id ← elim (query client.ring (put_route td)) [ none ↦ fault | some node ↦ ok node ]
    done ← put_on encrypt allocated id flags table key col val (client, servers id)
    ok (done.0, λ i. if i == id then done.1 else servers i)
