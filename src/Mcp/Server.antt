-- ===== src/Mcp/Server.antt =====
-- internal/infra/mcp/server.go: the tools that the MCP server offers, with their schemas, and how
-- the handlers of internal/infra/mcp/tools.go read a call. The server itself is a parameter.
pub mod Declared
use skills.Prelude.{ℕ, String, Bool, true, false, Option, none, some, List, [], ◌∷◌}
use skills.World.{World}
use skills.Environment.{Env}
use skills.Store.{Store}
use skills.Mcp.{ToolResult, send_notification, reset_notification, list_notifications, check_health}

-- `WithString` and `WithNumber`.
pub data Kind : Type 0 where
  string number : Kind

pub record Param : Type 0 where
  pub name : String
  pub kind : Kind
  pub required : Bool
  pub description : String

-- `NewTool`.
pub record Tool : Type 0 where
  pub name : String
  pub description : String
  pub params : List Param

-- A call: `GetString` and `GetInt` take an argument's name and its default; `none` is a negative
-- number.
pub record CallToolRequest : Type 0 where
  pub get_string : String → String → String
  pub get_int : String → ℕ → Option ℕ

abbrev pub ToolHandler : Type 0
ToolHandler = CallToolRequest → World → ToolResult × World

-- What is used of mcp-go: `find` is the tool and the handler that a server has under a name.
pub record McpGo (S : Type 0) : Type 0 where
  pub new_mcp_server : String → String → S
  pub add_tool : Tool → ToolHandler → S → S
  pub find : S → String → Option (Tool × ToolHandler)

abbrev pub send_notification_tool : Tool
send_notification_tool = record {
  name = "send_notification";
  description =
      "Send a notification email to the given address. Creates a notification record and enqueues an email delivery job.";
  params =
      (record {
        name = "email";
        kind = string;
        required = true;
        description = "Email address to notify";
      })
      ∷ [];
}

abbrev pub reset_notification_tool : Tool
reset_notification_tool = record {
  name = "reset_notification";
  description =
      "Reset a notification record so the email address can be notified again. Transitions the notification back to pending and clears the retry count.";
  params =
      (record {
        name = "email";
        kind = string;
        required = true;
        description = "Email address of the notification to reset";
      })
      ∷ [];
}

abbrev pub list_notifications_tool : Tool
list_notifications_tool = record {
  name = "list_notifications";
  description =
      "List all notification records with their current state, retry count, and timestamps.";
  params =
      (record {
        name = "after";
        kind = string;
        required = false;
        description = "Cursor for pagination (notification ID to start after)";
      })
      ∷ (record {
        name = "limit";
        kind = number;
        required = false;
        description = "Maximum number of results to return (default 20, max 100)";
      })
      ∷ [];
}

abbrev pub check_health_tool : Tool
check_health_tool = record {
  name = "check_health";
  description = "Check the health of the notification service by pinging the database.";
  params = [];
}

module _ (env : Env) (store : Store) where
  -- The handlers of tools.go, from the call on.
  unfoldable pub handle_send_notification : ToolHandler
  handle_send_notification req w = send_notification env store (req.get_string "email" "") w

  unfoldable pub handle_reset_notification : ToolHandler
  handle_reset_notification req w = reset_notification env store (req.get_string "email" "") w

  unfoldable pub handle_list_notifications : ToolHandler
  handle_list_notifications req w =
      list_notifications env store (req.get_string "after" "") (req.get_int "limit" 20) w

  unfoldable pub handle_check_health : ToolHandler
  handle_check_health req w = check_health env store w

  -- `NewMCPHandler`.
  unfoldable pub new_mcp_handler : {S : Type 0} → McpGo S → String → S
  new_mcp_handler go version = go.add_tool check_health_tool handle_check_health (
      go.add_tool list_notifications_tool handle_list_notifications (
        go.add_tool reset_notification_tool handle_reset_notification (
          go.add_tool send_notification_tool handle_send_notification
            (go.new_mcp_server "notifier" version))))
