-- ===== src/Builder/Run.antt =====
-- Source/FScheme/FSchemeGenerator.cpp with the generator of the internal form and the run: an
-- expression of the syntax tree as the main scheme of a program.
use fptl.Prelude.{
  ℕ, ◌≡◌, ◌≢◌, ◌∙◌, some, List, [], ◌∷◌, ◌++◌, get_elem?, Bool, false, String, Result, ok, timeout,
}
use fptl.Value.{DataValue}
use fptl.Scheme.{TFunction, Node, FScheme, Program}
use fptl.Form.{Form}
use fptl.Exec.Steps.{Functions}
use fptl.Interpreter.{run_program}
use fptl.Generator.{generate}
use fptl.Correct.Settles.{Settles}
use fptl.Correct.Measure.{IsProgram}
use fptl.Ops.{Foreign}
use fptl.Adt.{TypeInfo, Constructor}
use fptl.Library.{functions}
use fptl.Library.Strings.{string_functions}
use fptl.Library.Tables.{AllLocal}
use fptl.Library.Source.{IsBuilt, library-run_program}
use fptl.Builder.{Ast, handle}
use fptl.Builder.Meaning.{mean, IsReadable}
use fptl.Builder.Made.{made}

module _ (cpp : Foreign) (others : List (String × TFunction × Bool)) (ctors : List Constructor)
    (array_type : ℕ → TypeInfo) (prog : Program) where
  -- The functions that the names of a program can be.
  abbrev pub all_functions : List (String × TFunction × Bool)
  all_functions = functions cpp ++ (string_functions cpp ++ others)

  -- An expression that can be read, with schemes for its known functions that are made of library
  -- functions, constructors and destructors and call only schemes of the program, is turned to one
  -- node, the node to code, and the run of the code on one unit without proactive tasks ends, with
  -- enough fuel, with the tuple or the exception that the expression means.
  pub handle-run_program :
      (f : ℕ) (ast : Ast) (r : Result (List DataValue))
      → AllLocal others
      → IsProgram prog
      → ((k : ℕ) (s : FScheme)
          → get_elem? prog k ≡ some s
          → IsBuilt ctors array_type all_functions s.first_node)
      → IsReadable cpp all_functions ctors array_type prog ast
      → mean cpp all_functions ctors array_type prog f ast [] ≡ r
      → r ≢ timeout
      → (node : Node) × (form : Form) × (funs : Functions) × (handle cpp all_functions ctors
            array_type prog ast []
          ≡ ok (node ∷ []))
        × (generate prog false node ≡ ok (form, funs))
        × Settles (run_program funs form) r
  handle-run_program f ast r local calls built readable e not_timeout =
      let m = made cpp all_functions ctors array_type prog ast [] readable in
      let (form, funs, generated, settles) =
        library-run_program cpp others ctors array_type prog f m.node r local calls m.calls built
          m.built (m.means f [] ∙ e) not_timeout in
      (m.node, form, funs, m.pushed, generated, settles)
