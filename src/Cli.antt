-- ===== src/Cli.antt =====
-- src/main/python/hydra/lib/cli.py: the commands that look at marathon and mesos, and stop and scale an
-- app. What they print is not modelled. `docopt` reads the arguments, None where it exits; `int` is
-- Python's.
pub mod Commands
use m_scale.Common.{
  ℕ, zero, suc, Bool, true, false, ◌&&◌, Option, none, some, String, List, [], ◌∷◌, Exec, ok, err,
  pure, raise, gets, ◌>>=◌, ◌>>◌, finished, if◌then◌else◌, attribute_error, value_error,
  system_exit, index_error, type_error,
}
use m_scale.Hydra.Startup.{Settings, mesos_addr, marathon_addr}
use m_scale.Marathon.{
  Client, MarathonApp, get_app, delete_app, scale_app, wait_app_removal, wait_app_ready,
}
use m_scale.Marathon.Requests.{finds, get_apps}
use m_scale.Marathon.Mesos.{Rest, start}

-- What `docopt` returns.
pub record Args : Type 0 where
  pub ls : Bool
  pub slaves : Bool
  pub apps : Bool
  pub task : Bool
  pub stop : Bool
  pub scale : Bool
  pub app : String
  pub scale_arg : String

-- The world of the command: files with settings, mesos and a marathon at each address.
pub record Outer (W Json : Type 0) : Type 0 where
  pub read : String → W → Option Settings
  pub docopt : List String → Option Args
  pub int : String → Option ℕ
  pub mesos : Rest W Json
  pub marathon : String → Client W

-- The configuration file and the rest of `argv`, without the entry that names it.
unfoldable pub config_file : List String → String × List String
unfolding finds
config_file (a ∷ b ∷ argv) = if finds ".ini" b then (b, a ∷ argv) else ("hydra.ini", a ∷ b ∷ argv)
config_file argv = ("hydra.ini", argv)

-- `argv[0] = 'cli'`
abbrev pub renamed : {W : Type 0} → List String → Exec W (List String)
renamed [] = raise index_error
renamed (a ∷ argv) = pure ("cli" ∷ argv)

module _ {W Json : Type 0} (o : Outer W Json) (fuel : ℕ) where
  -- `ls task`: the app that marathon does not know is None, and has no `cpus`.
  unfoldable pub ls_task : Client W → String → Exec W (Unit {0})
  unfolding get_app
  ls_task mcli app = do
    found ← get_app mcli fuel app 300000
    a ← finished found
    elim a [ none ↦ raise attribute_error | some a1 ↦ pure tt ]

  unfoldable pub ls : Settings → Args → Exec W (Unit {0})
  unfolding ls_task start get_apps mesos_addr marathon_addr
  ls s args =
      if args.slaves
      then start o.mesos (mesos_addr s) >> pure tt
      else if args.apps
      then get_apps (o.marathon (marathon_addr s)) >> pure tt
      else if args.task
      then ls_task (o.marathon (marathon_addr s)) args.app
      else pure tt

  -- `stop <app>`; `force` is left to marathon.
  unfoldable pub stop : Client W → String → Exec W (Unit {0})
  unfolding delete_app wait_app_removal
  stop mcli app = do
    deleted ← delete_app mcli fuel app 200000
    finished deleted
    gone ← wait_app_removal mcli fuel app
    b ← finished gone
    pure tt

  -- `scale <app> <scale>`; between tries it sleeps a second.
  unfoldable pub scale : Client W → String → String → Exec W (Unit {0})
  unfolding scale_app wait_app_ready
  scale mcli app scale_arg = elim (o.int scale_arg) [
    | none ↦ raise value_error
    | some n ↦ (do
      done ← scale_app mcli fuel app n 300000
      finished done
      ready ← wait_app_ready mcli fuel app n 1000
      a ← finished ready
      pure tt)
  ]

  unfoldable pub dispatch : Settings → Args → Exec W (Unit {0})
  unfolding ls stop scale marathon_addr
  dispatch s args =
      if args.ls
      then ls s args
      else if args.stop
      then stop (o.marathon (marathon_addr s)) args.app
      else if args.scale
      then scale (o.marathon (marathon_addr s)) args.app args.scale_arg
      else pure tt

  -- `cli`
  unfoldable pub cli : List String → Exec W (Unit {0})
  unfolding config_file dispatch
  cli argv w =
      let (file, argv') = config_file argv in
      elim (o.read file w) [
        | none ↦ (err system_exit, w)
        | some s ↦
            (do
              argv1 ← renamed argv'
              elim (o.docopt argv1) [ none ↦ raise system_exit | some args ↦ dispatch s args ])
              w
      ]
