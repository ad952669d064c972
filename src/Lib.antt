-- ===== src/Lib.antt =====
-- sitectl: the core of a command line that manages containerised sites, in the parts that decide
-- what is written to a site's files and what is sent to its plugins.
--
-- Parts, and how they interact:
--   Text (strings), Result: Go's strings, strconv and error results, as the other modules use them.
--     A text is its list of Unicode code points; case folding is that of ASCII.
--   Yaml (pkg/yamlnode/yamlnode.go): a YAML tree and its lookups and edits. The functions that mutate
--     a *yaml.Node return the new node.
--   Document (pkg/component/yaml_mutator.go): the document that components edit by dotted paths.
--     Path is parseYAMLPath, Scalar the functions on the text of a scalar, Edits the operations
--     SetString, SetValue, DeletePath, HasPath, AppendUniqueString, RemoveString and
--     RemoveMatchingString. An operation returns the document as it leaves it, beside its result.
--     Touch, Find, Descent and Within hold the laws of the two descents along a path (ensurePath, and
--     the walk of the removing operations); Edits/Local, Below and Inside apply them to an operation.
--   Rpc (pkg/plugin/rpc_param_args.go): the bridge between the typed params of an RPC call and the
--     argv of a plugin command. Args writes a struct as flags and reads flags; Positionals is
--     ExtractRPCParamsFromArgs as a whole.
--   Host (cmd/rpc_params.go): the flags that the host takes out of an argv before that bridge.
--   Ports (pkg/config/ports.go): Detect reads the published ports of a compose project out of its YAML
--     trees, Search finds free host ports, Site chooses one for each port and makes the site's URL,
--     Override writes the override file with Yaml's edits and reads it back.
--   Dependencies (pkg/component/types.go): the modules and packages that a component needs.
--   Disposition (pkg/component/manager.go, types.go): states and dispositions, and the follow-ups
--     that they select.
--   ComposeFile (pkg/component/compose_file.go): the editor that keeps the text of a compose file. A
--     file is its list of lines, and an edit is the lines it leaves beside its result. Sections adds
--     and deletes services and volumes, Strings and Env edit the fixed-indent keys of a service,
--     Flexible and Build the keys at any indent, Volumes removes the volumes of a source. View
--     reads the lines of a section as entries; its children relate the searches and edits to them.
--   Rules (pkg/component/types.go, file_rules.go, status.go): the rules that make and recognise a
--     component's states. Json sets and deletes at dotted paths, Blocks handles text between markers,
--     Files applies and evaluates one rule, State all rules of a state over the files, Yaml a YAML
--     rule on one file, Detect the YAML state and the state that is detected.
--   Project (pkg/component/compose.go): a compose project, which is a Document and the map that was
--     last decoded from it. Resources finds what services refer to, Operations are the operations;
--     References describes the references without the loops, and Used compares the two. Entries and
--     Pruned follow the entries of a document through deletions.
--   Service (pkg/component/service_component.go): the rules and specs of a component that compose
--     definitions describe. Text.Sort is sort.Strings.
--   Manager (pkg/component/manager.go): enabling, disabling and reconciling components behind their
--     gates, as steps on a world. Runs says what a reconciliation may do, as relations between
--     worlds, Reconciled relates ReconcileAll to them, and Compose has the edits of the compose file.
--   Registry (pkg/component/registry.go): the features of a plugin by name.
--
-- Bounds and fuel. The port search makes the 200 attempts of the source, as the fuel of its loop.
-- Numbers are printed with as many rounds as the number itself, which is enough since each divides
-- it by ten. An int has 64 bits where a text is read as a number; all other loops are structural.
--
-- Parameters: reading and writing files, the docker commands, TCP listening, the YAML and JSON
-- decoders and encoders, url.URL, time.ParseDuration, path.Clean, filepath.Match and Join,
-- sort.Slice of results, fmt.Sprint and fmt's %q. A Go map that is looped over is the list of
-- its entries in the order in which the loop meets them; where two loops over one map are
-- compared, each has an order of its own.
--
-- Not modelled: the terminal interface, cobra's commands, transports to plugins and hosts, and the
-- services and healthchecks on top of the parts above. Comments, anchors and positions of YAML nodes
-- are no part of a tree: the code modelled reads none of them.
pub mod Prelude
pub mod Text
pub mod Yaml
pub mod Result
pub mod Document
pub mod Rpc
pub mod Ports
pub mod Host
pub mod Dependencies
pub mod Registry
pub mod Disposition
pub mod ComposeFile
pub mod Rules
pub mod Project
pub mod Service
pub mod Manager
