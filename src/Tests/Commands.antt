-- ===== src/Tests/Commands.antt =====
-- Theorems on the commands and on the MCP tools at concrete inputs.
use skills.Prelude.{
  String, false, ◌≡◌, ◌↔◌, ◌⊎◌, refl, none, List, [], ◌∷◌, same, if◌then◌else◌, All,
}
use skills.Mcp.Server.{Tool, ToolHandler, McpGo, new_mcp_handler}
use skills.Mcp.Server.Declared.{IsMcpGo, IsDeclared, tools, find_tool, new_mcp_handler-Declares}
use skills.Cli.{
  RootCommand, daemon_command, Flags, Parsed, selected, new_root_cmd, exit, nothing, run, execute,
}
use skills.Cli.Declared.{run-Declared}
use skills.Cli.Exits.{Succeeds, IsReady, execute-Exits}
use skills.Tests.Outer.{koanf, os, services, http}
use skills.Tests.Fixtures.{env, store}

-- A server as the list of its tools.
abbrev go : McpGo (List (Tool × ToolHandler))
go = record {
  new_mcp_server = λ service version. [];
  add_tool = λ tool h s. (tool, h) ∷ s;
  find = λ s name. find_tool name s;
}

go-IsMcpGo : IsMcpGo go
unfolding find_tool
go-IsMcpGo = record { empty = λ service version name. refl; added = λ tool h s name. refl }

new_mcp_handler-Declares_example :
    ((name : String)
      → go.find (new_mcp_handler env store go "dev") name ≡ find_tool name (tools env store))
    × All (λ e. IsDeclared e.0 e.1) (tools env store)
new_mcp_handler-Declares_example = new_mcp_handler-Declares env store go "dev" go-IsMcpGo

abbrev given : Flags
given = record {
  get_string = λ name. if same name "bind" then "0.0.0.0" else "";
  get_int = λ name. 25;
  get_bool = λ name. false;
}

-- A command line with the same values at the flags of `daemon` and others at the rest.
abbrev given_more : Flags
given_more = record {
  get_string =
      λ name. if same name "bind" then "0.0.0.0" else if same name "token" then "secret" else "";
  get_int = λ name. if same name "retries" then 7 else 25;
  get_bool = λ name. same name "verbose";
}

run-Declared_example :
    run os koanf services http false (λ b p. b) [] none daemon_command.run_e "dev" none given
    ≡ run os koanf services http false (λ b p. b) [] none daemon_command.run_e "dev" none given_more
unfolding same
run-Declared_example =
    run-Declared os koanf services http false (λ b p. b) [] none "dev" none given given_more 0
      daemon_command refl (refl, (refl, (refl, (refl, (refl, (refl, (refl, (refl, (refl, tt)))))))))

abbrev parse : RootCommand → Parsed
parse root = selected daemon_command given

execute-Exits_example :
    let p = execute os koanf services http false (λ b q. b) [] none parse "dev" none in
    ((p.status ≡ exit 0)
      ↔ Succeeds os koanf services http false
          (λ b q. b)
          []
          none
          (parse (new_root_cmd "dev"))
          "dev"
          none)
    × ((p.ran ≡ nothing) ⊎ IsReady os koanf services http false (λ b q. b) [] none)
execute-Exits_example =
    execute-Exits os koanf services http false (λ b q. b) [] none parse "dev" none
