-- ===== src/Master/Main.antt =====
-- `main` of src/main.c, as the process that becomes the master runs it. The XML tree of a file, the
-- loaded modules, and the results of opening the log, of the calls on the socket and of `fork` are
-- arguments.
use xwp_server.Base.{ℕ, Bool, true, false, List, [], ◌∷◌, Option, none, some, ℤ, pos, negsuc}
use xwp_server.CLib.{Bytes}
use xwp_server.Conf.Exit.{Failure, Parsed, parsed, exits}
use xwp_server.Conf.{Loaded, ConfFile, conf_parse}
use xwp_server.Master.Options.{Opt, Files, conf_files}
use xwp_server.Master.{Master, start}
use xwp_server.Xml.{XmlNode}

-- How it ends: the result, or `exit(-1)` of the configuration, or the loop of `master_main`.
pub data MainEnd : Type 0 where
  returned : ℤ → MainEnd
  exited : Failure → MainEnd
  supervising : Master → MainEnd

-- What it does on the way. The signals that are ignored are SIGTSTP, SIGTTOU, SIGTTIN and SIGPIPE;
-- those that are handled are SIGCHLD, SIGTERM and SIGINT.
pub data MainCall : Type 0 where
  daemonize ignore_signals handle_signals destroy_pool close_log : MainCall

-- From the test of `s_listen_fd` on.
unfoldable pub behind_listen : Option ℕ → Bool → MainEnd × List MainCall
behind_listen none forked = (returned (pos 0), destroy_pool ∷ close_log ∷ [])
behind_listen (some fd) forked = (supervising (start forked), [])

-- From the test of `s_conf` on; `conf_parse` does not return NULL. `listen` is `open_listen_fd` for the
-- configuration's address, port and number of threads.
unfoldable pub behind_conf :
    (ConfFile → Option ℕ) → Bool → Parsed ConfFile → MainEnd × List MainCall
unfolding behind_listen
behind_conf listen forked (exits reason) = (exited reason, [])
behind_conf listen forked (parsed conf) = behind_listen (listen conf) forked

-- From the test of `dzlog_init` on: `true` is its result 0.
unfoldable pub behind_log :
    (Bytes → Option XmlNode)
    → (Bytes → Loaded)
    → (ConfFile → Option ℕ)
    → Bool
    → Files
    → Bool
    → MainEnd × List MainCall
unfolding behind_conf
behind_log tree load listen forked files false = (returned (negsuc 0), [])
behind_log tree load listen forked files true =
    let (end, calls) = behind_conf listen forked (conf_parse load (tree files.xwp_conf)) in
    (end, daemonize ∷ ignore_signals ∷ handle_signals ∷ calls)

unfoldable pub main :
    Bytes
    → Bytes
    → (Bytes → Bool)
    → (Bytes → Option XmlNode)
    → (Bytes → Loaded)
    → (ConfFile → Option ℕ)
    → Bool
    → List Opt
    → MainEnd × List MainCall
unfolding behind_log
main xwp_path log_path log_opens tree load listen forked opts =
    elim (conf_files xwp_path log_path opts) [
      | none ↦ (returned (negsuc 0), [])
      | some files ↦ behind_log tree load listen forked files (log_opens files.log_conf)
    ]
