-- ===== src/Mcp/Server/Declared.antt =====
-- What a tool's schema says is what its handler reads.
use skills.Prelude.{
  ℕ, String, true, ◌≡◌, refl, ap, ◌∙◌, Option, none, some, List, [], ◌∷◌, same, same_iff,
  if◌then◌else◌, All, Bool-cases, inl, inr,
}
use skills.World.{World}
use skills.Environment.{Env}
use skills.Store.{Store}
use skills.Mcp.{failure, send_notification, reset_notification, list_notifications}
use skills.Mcp.Server.{
  string, number, Param, Tool, CallToolRequest, ToolHandler, McpGo, send_notification_tool,
  reset_notification_tool, list_notifications_tool, check_health_tool, handle_send_notification,
  handle_reset_notification, handle_list_notifications, handle_check_health, new_mcp_handler,
}

-- Two calls have the same argument, read as its kind.
abbrev pub Agrees : CallToolRequest → CallToolRequest → Param → Type 0
Agrees r r1 p = elim p.kind [
  | string ↦ (d : String) → r.get_string p.name d ≡ r1.get_string p.name d
  | number ↦ (d : ℕ) → r.get_int p.name d ≡ r1.get_int p.name d
]

-- A call without a required argument, or with an empty one.
abbrev pub IsRefused : ToolHandler → CallToolRequest → Param → Type 0
IsRefused h r p =
    p.required ≡ true
    → r.get_string p.name "" ≡ ""
    → (w : World) → (text : String) × (h r w ≡ (failure text, w))

-- The handler reads nothing but the arguments of the schema, as their kinds, and refuses a call
-- that lacks a required one, changing nothing.
pub record IsDeclared (tool : Tool) (h : ToolHandler) : Type 0 where
  pub reads :
      (r r1 : CallToolRequest) → All (Agrees r r1) tool.params → (w : World) → h r w ≡ h r1 w
  pub refuses : (r : CallToolRequest) → All (IsRefused h r) tool.params

-- What mcp-go documents of its tools: a tool is found under its name, the last one that was added.
pub record IsMcpGo {S : Type 0} (go : McpGo S) : Type 0 where
  pub empty :
      (service version name : String) → go.find (go.new_mcp_server service version) name ≡ none
  pub added :
      (tool : Tool) (h : ToolHandler) (s : S) (name : String)
      → go.find (go.add_tool tool h s) name
        ≡ (if same name tool.name then some (tool, h) else go.find s name)

module _ (env : Env) (store : Store) where
  send-IsDeclared : IsDeclared send_notification_tool (handle_send_notification env store)
  unfolding handle_send_notification send_notification same
  send-IsDeclared = record {
    reads = λ r r1 (e, _) w. ap (λ email. send_notification env store email w) (e "");
    refuses = λ r. ((λ _ e w. ("email is required", rw e refl)), tt);
  }

  reset-IsDeclared : IsDeclared reset_notification_tool (handle_reset_notification env store)
  unfolding handle_reset_notification reset_notification same
  reset-IsDeclared = record {
    reads = λ r r1 (e, _) w. ap (λ email. reset_notification env store email w) (e "");
    refuses = λ r. ((λ _ e w. ("email is required", rw e refl)), tt);
  }

  list-IsDeclared : IsDeclared list_notifications_tool (handle_list_notifications env store)
  unfolding handle_list_notifications
  list-IsDeclared = record {
    reads = λ r r1 (e, (f, _)) w.
        ap (λ after. list_notifications env store after (r.get_int "limit" 20) w) (e "")
        ∙ ap (λ asked. list_notifications env store (r1.get_string "after" "") asked w) (f 20);
    refuses = λ r. ((λ n e w. absurd (cc)), ((λ n e w. absurd (cc)), tt));
  }

  health-IsDeclared : IsDeclared check_health_tool (handle_check_health env store)
  unfolding handle_check_health
  health-IsDeclared = record { reads = λ r r1 _ w. refl; refuses = λ r. tt }

-- The tools by their names.
abbrev pub tools : Env → Store → List (Tool × ToolHandler)
tools env store =
    (send_notification_tool, handle_send_notification env store)
    ∷ (reset_notification_tool, handle_reset_notification env store)
    ∷ (list_notifications_tool, handle_list_notifications env store)
    ∷ (check_health_tool, handle_check_health env store)
    ∷ []

unfoldable pub find_tool : String → List (Tool × ToolHandler) → Option (Tool × ToolHandler)
find_tool name [] = none
find_tool name ((tool, h) ∷ rest) =
    if same name tool.name then some (tool, h) else find_tool name rest

-- The four names differ, so that the order in which they are tried does not matter.
any_order :
    {A : Type 0} (name : String) (a b c d : Option A)
    → (if same name "check_health"
        then d
        else if same name "list_notifications"
        then c
        else if same name "reset_notification"
        then b
        else if same name "send_notification"
        then a
        else none)
      ≡ (if same name "send_notification"
          then a
          else if same name "reset_notification"
          then b
          else if same name "list_notifications"
          then c
          else if same name "check_health"
          then d
          else none)
unfolding same
any_order name a b c d = elim (Bool-cases (same name "send_notification")) [
  | inl p ↦ let e = (same_iff name "send_notification").0 p in rw e refl
  | inr p ↦ elim (Bool-cases (same name "reset_notification")) [
    | inl q ↦ let e = (same_iff name "reset_notification").0 q in rw e refl
    | inr q ↦ elim (Bool-cases (same name "list_notifications")) [
      | inl r ↦ let e = (same_iff name "list_notifications").0 r in rw e refl
      | inr r ↦ rw (p, q, r) refl
    ]
  ]
]

-- With a server that finds a tool under its name: the server has exactly the four tools of the
-- table under their names and none under any other; each handler reads nothing of a call but the
-- arguments that its schema names, as their kinds; and a call without a required argument, or
-- with an empty one, fails and changes nothing.
pub new_mcp_handler-Declares :
    (env : Env) (store : Store) {S : Type 0} (go : McpGo S) (version : String)
    → IsMcpGo go
    → ((name : String)
        → go.find (new_mcp_handler env store go version) name ≡ find_tool name (tools env store))
      × All (λ e. IsDeclared e.0 e.1) (tools env store)
unfolding new_mcp_handler find_tool
new_mcp_handler-Declares env store go version law = (
  λ name.
      rw
        (
          law.added check_health_tool (handle_check_health env store) _ name,
          law.added list_notifications_tool (handle_list_notifications env store) _ name,
          law.added reset_notification_tool (handle_reset_notification env store) _ name,
          law.added send_notification_tool (handle_send_notification env store) _ name,
          law.empty "notifier" version name,
        )
        (any_order name (some (send_notification_tool, handle_send_notification env store))
          (some (reset_notification_tool, handle_reset_notification env store))
          (some (list_notifications_tool, handle_list_notifications env store))
          (some (check_health_tool, handle_check_health env store))),
  (
    send-IsDeclared env store,
    (reset-IsDeclared env store, (list-IsDeclared env store, (health-IsDeclared env store, tt))),
  ),
)
