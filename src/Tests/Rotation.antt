-- ===== src/Tests/Rotation.antt =====
-- A concrete order of writes, notices and calls.
use lxd_csi_driver.Base.{ℕ, true, false, some, ok, ◌≡◌, inr, refl, ◌==◌, if◌then◌else◌}
use lxd_csi_driver.Strings.{Text, codes, text_eq}
use lxd_csi_driver.Lxd.{Env}
use lxd_csi_driver.Driver.{Driver, World, new_driver, default_dev_lxd_token_file}
use lxd_csi_driver.Driver.Connect.{dev_lxd_client, use_token, handle_token_file_change, trusting}
use lxd_csi_driver.Driver.Connect.Rotation.{
  Rotation, idle, write, notice, begin, end, Reach, here, next, IsCurrent, Reach-IsCurrent,
}
use lxd_csi_driver.Driver.Connect.Rotation.Token.{IsTokenFile, token_change-token}
use lxd_csi_driver.Tests.Fake.{fake, connected_driver, server}

-- The token in the file of a state.
abbrev token_at : ℕ → Text
token_at s = if s == 0 then codes "first" else if s == 1 then codes "second" else codes "third"

-- A server whose clients are the tokens that they carry.
abbrev tokens : Env
tokens = record fake {
  read_file = λ name s. (ok (token_at s), s);
  connect_dev_lxd = λ socket agent token s. (ok token, s);
  use_bearer_token = λ client token. token;
}

tokens-IsTokenFile : IsTokenFile tokens default_dev_lxd_token_file
tokens-IsTokenFile = record {
  file = token_at;
  token_of = λ client. client;
  keeps = record {
    read_file = λ name s. refl;
    is_socket = λ name s. refl;
    connect_dev_lxd = λ socket agent token s. refl;
    get_state = λ client s. refl;
  };
  reads = λ s h. cc;
  uses = λ client token. refl;
  connects = λ socket agent token s h. cc;
}

abbrev first_driver : Driver Text
first_driver = record connected_driver { dev_lxd = some (codes "first") }

abbrev first : World tokens
first = record { driver = first_driver; locks = λ k. false; state = 0 }

abbrev quiet : Rotation tokens
quiet = record { world = first; phase = idle; pending = false }

-- A call after a write and its notice, which another write overtakes.
abbrev reconnected : World tokens
reconnected = record {
  driver = trusting tokens (codes "second") server first_driver;
  locks = λ k. false;
  state = 2;
}

abbrev ended_call : Rotation tokens
ended_call = record { world = reconnected; phase = idle; pending = true }

overtaken : Reach tokens-IsTokenFile quiet ended_call
unfolding handle_token_file_change new_driver use_token text_eq
overtaken =
    next (next (next (next (next here (write 1)) (notice refl refl)) (begin refl refl)) (write 2))
      (end (ok (codes "second")) refl)

Reach-IsCurrent_example : IsCurrent tokens-IsTokenFile reconnected.driver true (codes "third")
unfolding new_driver tokens-IsTokenFile
Reach-IsCurrent_example =
    Reach-IsCurrent tokens-IsTokenFile refl refl (inr (inr (inr (codes "first", refl, refl))))
      overtaken

-- The file was written in state 1, and the driver has the client of state 0.
abbrev written : World tokens
written = record first { state = 1 }

abbrev renewed : World tokens
renewed = record {
  driver = trusting tokens (codes "second") server first_driver;
  locks = λ k. false;
  state = 1;
}

renews :
    dev_lxd_client tokens (handle_token_file_change tokens written) ≡ (ok (codes "second"), renewed)
unfolding handle_token_file_change new_driver dev_lxd_client text_eq
renews = refl

token_change-token_example :
    (codes "second" ≡ codes "second")
    × (codes "second" ≡ codes "second")
    × (renewed.driver.dev_lxd ≡ some (codes "second"))
    × (renewed.driver.has_dev_lxd_token_changed ≡ false)
unfolding new_driver tokens-IsTokenFile
token_change-token_example = token_change-token tokens-IsTokenFile written refl renews
