-- ===== src/Server/Gate.antt =====
-- internal/server/server.go: the handler with the decision and the identification of the program.
use package_firewall.Common.{ℕ, ◌≡◌, ◌||◌, true, some}
use package_firewall.Common.Text.{Text}
use package_firewall.Policy.Types.{Config, Decision}
use package_firewall.Policy.Engine.{new}
use package_firewall.Registry.Types.{RequestInfo}
use package_firewall.Registry.Golang.{Versions}
use package_firewall.Registry.Identify.{identify}
use package_firewall.Server.Decide.{DecisionConfig, Lookups, decide_request}
use package_firewall.Server.Decide.Served.{Served, decide_request-Served}
use package_firewall.Server.Handle
use package_firewall.Server.Handle.{RouteConfig, Server, Request, authorized, handle}
use package_firewall.Server.Handle.Access.{forwarded, handle-Admitted}

module _ (one_decimal : ℕ → Text) (pcfg : Config) (cfg : DecisionConfig)
    (lookups : RouteConfig → RequestInfo → Lookups) (now later : ℕ) where
  -- `decide` on the policy of the configuration
  abbrev pub decide_for : RouteConfig → RequestInfo → Decision
  decide_for route info =
      decide_request one_decimal cfg (lookups route info) info now later (new pcfg).0

  -- A request is forwarded only if its route allows anonymous use or it is authorized, and the
  -- package that its path names is let through for one of the reasons of `Served`.
  pub handle-Served :
      (versions : Versions) (s : Server) (serve : RouteConfig → RequestInfo → Handle.Served)
      (r : Request) (route : RouteConfig) (info : RequestInfo)
      → forwarded (handle s (identify versions) decide_for serve r) ≡ some (route, info)
      → ((route.allow_anonymous || authorized s r) ≡ true)
        × Served pcfg cfg (lookups route info) info (decide_for route info)
  handle-Served versions s serve r route info h =
      let admitted = handle-Admitted s (identify versions) decide_for serve r route info h in
      (
        admitted.permitted,
        decide_request-Served one_decimal pcfg cfg (lookups route info) info now later
            admitted.not_blocked,
      )
