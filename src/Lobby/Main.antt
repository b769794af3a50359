-- ===== src/Lobby/Main.antt =====
-- lobby_server/src/main.cpp: the process of the lobby, from `main` to the call that waits for
-- requests. gRPC's server is left out.
use ki_han_server_distribute.Base.{
  pos, ℕ, Bool, true, Option, none, some, ◌≡◌, refl, if◌then◌else◌, is_some, not, ◌⊎◌, inl, inr,
  Bool-cases,
}
use ki_han_server_distribute.Base.Bytes.{codes}
use ki_han_server_distribute.Db.{Database, DbManager, init, init_with, connected}
use ki_han_server_distribute.Lobby.{Service, init_service}

module _ ⦃db : Database⦄ where
  -- How the process ends, or that it serves requests with a service and a database.
  pub data Started : Type 0 where
    exits : ℕ → Started
    serves : Service → DbManager → Started

  unfoldable pub run_server : DbManager → Started
  unfolding init_service
  run_server d = serves init_service d

  started : DbManager × Bool → Started
  unfolding run_server
  started (d, ok) = if not ok then exits 1 else run_server d

  unfoldable pub main : DbManager → Started
  unfolding started init
  main d =
      started
        (init d (codes "127.0.0.1") (pos 33060) (codes "root") (codes "123456") (codes "kihan_db"))

  init_with-session :
      (d : DbManager) (o : Option db.Session)
      → (init_with d o).1 ≡ true
      → is_some (init_with d o).0.session ≡ true
  unfolding init_with connected
  init_with-session d none ok = cc
  init_with-session d (some s) ok = refl

  -- The process ends with exit code 1, or it serves requests, with nobody online and a database
  -- session that is not null, whatever the database was before.
  pub main_total :
      (d : DbManager)
      → (main d ≡ exits 1)
        ⊎ ((d' : DbManager) × (main d ≡ serves init_service d') × (is_some d'.session ≡ true))
  unfolding main started run_server init
  main_total d =
      let d0 = record d { db_name = codes "kihan_db" } in
      let o = db.connect (codes "127.0.0.1") (pos 33060) (codes "root") (codes "123456") in
      elim (Bool-cases (init_with d0 o).1) [
        | inl ok ↦ inr ((init_with d0 o).0, rw ok refl, init_with-session d0 o ok)
        | inr failed ↦ inl (rw failed refl)
      ]
