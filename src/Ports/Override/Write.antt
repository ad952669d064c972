-- ===== src/Ports/Override/Write.antt =====
-- writeComposePortOverride and readComposeOverrideDocument: what becomes of the override file. What
-- the file holds is an argument; what is to be done with it is the result.
use sitectl.Prelude.{Bool, true, false, ◌&&◌, List, if◌then◌else◌, is_empty, is_some}
use sitectl.Result.{Result, ok, err, ◌>>=◌}
use sitectl.Text.{Text, ◌==◌, trim_space}
use sitectl.Yaml.{
  Node, Nodes, nil, cons, content, document_mapping, ensure_document_mapping, empty_document,
}
use sitectl.Document.{with_root, first_child}
use sitectl.Ports.{Plan}
use sitectl.Ports.Override.{
  HostPorts, PortOverride, desired_port_overrides, managed_port_override_services, override_root,
}

-- What reading a file gives
pub data Contents (E : Type 0) : Type 0 where
  missing : Contents E
  failed : E → Contents E
  contents : Text → Contents E

pub data Action : Type 0 where
  leave : Action
  remove : Action
  write : Text → Action

pub record Opened : Type 0 where
  pub doc : Node
  pub existed : Bool

abbrev has_no_nodes : Nodes → Bool
has_no_nodes nil = true
has_no_nodes (cons n ns) = false

abbrev holds_text : {E : Type 0} → Contents E → Text → Bool
holds_text (contents old) new = old == new
holds_text _ new = false

module _ {E : Type 0} (decode : Text → Result E Node) (marshal : Node → Result E Text) where
  abbrev fresh : Bool → Opened
  fresh existed = record { doc = empty_document; existed = existed }

  -- readComposeOverrideDocument
  unfoldable pub read_compose_override_document : Contents E → Result E Opened
  read_compose_override_document missing = ok (fresh false)
  read_compose_override_document (failed e) = err e
  read_compose_override_document (contents raw) =
      if is_empty (trim_space raw)
      then ok (fresh true)
      else (decode raw >>= λ doc. ok (
          if is_some (document_mapping doc)
          then record { doc = doc; existed = true }
          else fresh true))

  abbrev print_edited : Contents E → Node → Bool → Node → Result E Action
  print_edited file doc existed edited =
      if has_no_nodes (content edited)
      then ok (if existed then remove else leave)
      else (marshal (with_root doc edited) >>= λ printed.
          ok (if holds_text file printed then leave else write printed))

  -- writeComposePortOverride behind the reading: `doc` has a mapping as its root.
  unfoldable pub edit_override :
      Contents E → Node → Bool → List Text → List PortOverride → Result E Action
  edit_override file doc existed managed desired =
      if is_empty desired && is_empty managed
      then ok leave
      else print_edited file doc existed (override_root managed desired (first_child doc))

  -- writeComposePortOverride
  unfoldable pub write_compose_port_override : Contents E → Plan → HostPorts → Result E Action
  unfolding edit_override
  write_compose_port_override file plan hosts = do
    opened ← read_compose_override_document file
    edit_override file (ensure_document_mapping opened.doc) opened.existed
        (managed_port_override_services (first_child (ensure_document_mapping opened.doc)))
        (desired_port_overrides plan hosts)
