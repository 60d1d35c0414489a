-- ===== src/Proxy/Plain/Server.antt =====
-- What a Redis server behind the plaintext searches is taken to do.
use asiaccs.Base.{some, List, [], ◌∷◌, ◌≡◌, ◌++◌, refl, sym, ◌∙◌, u32, length}
use mathlib.Core.List.{append-nil, append_assoc}
use asiaccs.Proxy.Services.{Bytes, codes}
use asiaccs.Caravel.Redis.{
  done, Reply, text, array, Replies, end, more, str, Address, Network, RedisHelper, def_rep_times,
  get_word, pool_get, pool_run, ins, ins_all,
}

-- A reply that is an array of texts.
abbrev pub texts : List Bytes → Replies
texts [] = end
texts (k ∷ ks) = more (text k) (texts ks)

-- The server at an address is reached within the repetitions. GET answers with the value of a key, and
-- KEYS with the keys; neither changes anything.
pub record RedisServer (net : Network) : Type 1 where
  pub at : Address
  pub reply : net.World → Bytes → Reply
  pub keys : net.World → List Bytes
  pub get :
      (k : Bytes) (w : net.World)
      → net.run_with_connection at def_rep_times (get_word ∷ k ∷ []) w ≡ some (reply w k, w)
  pub keys_all :
      (w : net.World)
      → net.run_with_connection at def_rep_times (codes "KEYS" ∷ codes "*" ∷ []) w
        ≡ some (array (texts (keys w)), w)

pub ins_all-texts : (res ks : List Bytes) → ins_all res (texts ks) ≡ res ++ ks
unfolding ins_all ins
ins_all-texts res [] = sym (append-nil res)
ins_all-texts res (k ∷ ks) = ins_all-texts (res ++ (k ∷ [])) ks ∙ append_assoc res (k ∷ []) ks

module _ ⦃net : Network⦄ (h : RedisHelper) where
  -- A command whose answer is an array of texts returns the texts.
  pub pool_run-texts :
      (a : Address) (cmd ks : List Bytes) (w w1 : net.World)
      → h.ptr_pool ≡ some a
      → net.run_with_connection a def_rep_times cmd w ≡ some (array (texts ks), w1)
      → pool_run h cmd w ≡ done (ks, w1)
  unfolding pool_run ins
  pool_run-texts a cmd ks w w1 opened answer = rw (opened, answer, ins_all-texts [] ks) refl

  pub pool_get-reply :
      (a : Address) (k : Bytes) (w w1 : net.World) (r : Reply)
      → h.ptr_pool ≡ some a
      → net.run_with_connection a def_rep_times (get_word ∷ k ∷ []) w ≡ some (r, w1)
      → pool_get h k w ≡ done ((u32 (length (str r)), str r), w1)
  unfolding pool_get
  pool_get-reply a k w w1 r opened answer = rw (opened, answer) refl
