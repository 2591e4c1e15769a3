-- ===== src/Redis/Serves.antt =====
-- A redis server that is up: the client does not panic, and the server accepts every SET.
use traefik_kop.Prelude.{ℕ, ◌≡◌, ◌≢◌, List}
use traefik_kop.Prelude.Result.{ok, panic}
use traefik_kop.Text.{Str}
use traefik_kop.Redis.{Redis}

pub record Serves (r : Redis) : Type 0 where
  pub set_accepted : (key v : Str) (t : ℕ) (s : r.State) → (r.set key v t s).0 ≡ ok tt
  pub get_calm : (key : Str) (s : r.State) → (r.get key s).0 ≢ panic
  pub keys_calm : (p : Str) (s : r.State) → (r.keys p s).0 ≢ panic
  pub unlink_calm : (ks : List Str) (s : r.State) → (r.unlink ks s).0 ≢ panic
  pub sadd_calm : (key : Str) (ms : List Str) (s : r.State) → (r.sadd key ms s).0 ≢ panic
  pub smembers_calm : (key : Str) (s : r.State) → (r.smembers key s).0 ≢ panic
  pub sdiff_calm : (a b : Str) (s : r.State) → (r.sdiff a b s).0 ≢ panic
  pub rename_calm : (from to : Str) (s : r.State) → (r.rename from to s).0 ≢ panic
