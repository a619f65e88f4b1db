-- ===== src/Shell.antt =====
-- Commands of the shell: utility/py_sys_cmd.py and common.py of src/main/python/hydra/lib, the rules of the
-- firewall in hydrabase.py, and the loop of the web server in appserver.py. The shell is a `ShellOs`; times
-- are seconds.
pub mod Ending
use Prim.Native.String.{◌++◌ as ◌+++◌}
use m_scale.Common.{
  ℕ, zero, suc, Bool, true, false, not, ◌&&◌, ◌||◌, Option, none, some, String, Exec, ok, err,
  raised, pure, raise, ◌>>=◌, ◌>>◌, nat_beq, if◌then◌else◌, string_eq, ◌==◌, type_error,
}
use m_scale.Hydra.Apps.{str_of_ℕ}

pub data Signal : Type 0 where
  sigterm sigkill : Signal

-- What `communicate` gives of a command that has ended, with the size of its return code, which
-- is negative where a signal ended it.
pub record Ended : Type 0 where
  pub status : ℕ
  pub stdout : String
  pub stderr : String

-- One command of the shell, in a thread of its own: starting it; waiting for the thread, with or without a
-- time; whether the thread is alive; whether there is a process, and whether it has ended (`poll`);
-- a signal to its group; `time.sleep`; and what the thread has kept.
pub record ShellOs (W : Type 0) : Type 0 where
  pub start : String → W → W
  pub join : Option ℕ → W → W
  pub is_alive : W → Bool
  pub has_process : W → Bool
  pub has_ended : W → Bool
  pub killpg : Signal → W → W
  pub sleep : ℕ → W → W
  pub kept : W → Option Ended

module _ {W : Type 0} (os : ShellOs W) where
  -- What `run` does to a command that takes too long.
  unfoldable pub stop_group : W → W
  stop_group w =
      let w1 = os.sleep 2 (os.killpg sigterm w) in
      os.join none (if os.has_ended w1 then w1 else os.killpg sigkill (os.sleep 3 w1))

  abbrev pub is_late : W → Bool
  is_late w = os.is_alive w && os.has_process w

  abbrev pub has_failed : Option Ended → Bool
  has_failed none = true
  has_failed (some e) = not (nat_beq e.status 0)

  -- `PySysCommand.run`, with what the thread has kept then.
  unfoldable pub run : ℕ → Bool → String → Exec W (Option Ended)
  unfolding stop_group
  run timeout no_assert exec_cmd w =
      let w1 = os.join (some timeout) (os.start exec_cmd w) in
      let late = is_late w1 in
      let w2 = (if late then stop_group w1 else w1) in
      if not no_assert && (has_failed (os.kept w2) || late)
      then (err (raised "Command failed"), w2)
      else (ok (os.kept w2), w2)

  -- `pg_cmd.stdout + pg_cmd.stderr`
  abbrev pub output : Option Ended → Exec W String
  output none = raise type_error
  output (some e) = pure (e.stdout +++ e.stderr)

  -- `execute_local_cmd`, which returns nothing.
  unfoldable pub execute_local_cmd : String → ℕ → Exec W (Unit {0})
  unfolding run
  execute_local_cmd cmd timeout = (run timeout false cmd >>= output) >> pure tt

  -- `execute_remote_cmd`
  unfoldable pub execute_remote_cmd : String → String → String → ℕ → Exec W String
  unfolding run
  execute_remote_cmd ip user cmd timeout =
      run timeout false
        ("ssh -o StrictHostKeyChecking=no " +++ user +++ "@" +++ ip +++ " \"" +++ cmd +++ "\"")
      >>= output

  -- The command that appends (`-A`) or deletes (`-D`) a rule.
  unfoldable pub rule_cmd : String → String → String → String → String → String
  rule_cmd option chain protocol port ip =
      "sudo /sbin/iptables " +++ option +++ " " +++ chain +++ " -p " +++ protocol
      +++ " --destination-port " +++ port +++ " -s " +++ ip +++ " -j DROP"

  -- On the host where there are both a host and a user.
  unfoldable pub execute_on : String → String → String → Exec W (Unit {0})
  unfolding execute_remote_cmd execute_local_cmd
  execute_on host_ip user cmd =
      if not (host_ip == "") && not (user == "")
      then execute_remote_cmd host_ip user cmd 10 >> pure tt
      else execute_local_cmd cmd 10

  unfoldable pub block_ip_port_on_node :
      String → String → String → String → String → String → Exec W (Unit {0})
  unfolding rule_cmd execute_on
  block_ip_port_on_node ip_to_block port chain protocol host_ip user =
      execute_on host_ip user (rule_cmd "-A" chain protocol port ip_to_block)

  unfoldable pub unblock_ip_port_on_node :
      String → String → String → String → String → String → Exec W (Unit {0})
  unfolding rule_cmd execute_on
  unblock_ip_port_on_node ip_to_unblock port chain protocol host_ip user =
      execute_on host_ip user (rule_cmd "-D" chain protocol port ip_to_unblock)

-- `TServer`
pub record WebServer : Type 0 where
  pub stop_server : Bool

-- The loop of `TServer.run`, on fuel: `handle_request` waits for a request and answers it, and may set
-- the flag, since `stop` sets it and then sends a request of its own.
unfoldable pub serve :
    {W : Type 0} → (WebServer × W → WebServer × W) → ℕ → WebServer × W → Option (WebServer × W)
serve handle_request zero s = none
serve handle_request (suc fuel) (t, w) =
    let rest = serve handle_request fuel (handle_request (t, w)) in
    if t.stop_server then some (t, w) else rest

-- `TServer.stop`, up to its request.
unfoldable pub stop : WebServer → WebServer
stop t = record t { stop_server = true }
