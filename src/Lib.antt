-- ===== src/Lib.antt =====
-- A model of desmata, a package manager that addresses code by cryptographic hash.
--
-- The program's parts, and the files that model them:
--
-- * src/desmata/content.py, content addresses: Content. `Hash` is the address, `show_hash` is
--   `Hash.__str__`, and `parse` is `Hash.parse`. Content/Registry holds `BackendRegistry`.
-- * src/desmata/wave.py, the text of the values that a WebAssembly component takes and returns:
--   Wave. Wave/Value holds the Python values, Wave/Numbers `repr` and `int`, Wave/Encode `encode`
--   and `encode_args`, Wave/Parser the parts of `_Parser` that do not recurse, and Wave/Decode
--   `value`, `sequence` (here `items`), `record` (here `fields`) and `decode`. A parser's
--   position is the text that is left. Wave/Canonical says which values are JSON-shaped; the
--   other files are proofs.
-- * src/desmata/wit.py, the canonical text of an exported function's types: Wit holds the
--   renderer, Wit/Values what `json.loads` returns, Wit/Signature the search for the function and
--   its signature, Wit/Renders the relation between a type reference and its canonical text,
--   Wit/Texts that of a function's parameters and result, and Wit/Found which function of the
--   JSON is meant.
-- * src/desmata/cell_archive.py, cells and their hashes: Archive. Archive/Lines holds the string
--   methods it calls, Archive/Cell the nucleus and membrane files, Archive/Pins the artifact
--   pins, Archive/Manifest the manifests and their reading, and Archive/Parcel bundles,
--   publishing, `verify_has_nucleus` and what `from_peer` does before the cell's class is loaded.
--   Pins are content addresses of Content.
-- * src/desmata/transport.py, closures of store paths that travel between peers: Transport holds
--   `_topo_order`, on what `nix` reports of a closure, and Transport/Carriage the export of a
--   closure to a bundle and its import. Transport/Behind says which path refers to which.
-- * src/desmata/artifact.py, components that a cell pins: Artifact, whose `build_or_get` returns
--   with the file that it leaves. The pins are those of Archive/Pins.
-- * src/desmata/provenance.py, the claims of a peer and their ledger: Provenance holds
--   `Brushstroke` with its fact, canonical form and signing, Provenance/Wire its document, and
--   Provenance/Ledger the directory of strokes, and Provenance/Builds the records of builds and
--   their store. The fact of a stroke is what Dumps prints, `json.dumps` in its compact form.
-- * src/desmata/paint.py, witnessing and publishing: Paint. Paint/Values holds `result_ref_value`
--   and `deref_arg_value`, Paint/Desk the state that is changed (the ledger of Provenance and the
--   outbox of blobs), Paint/Witness the calls that change it, which encode with Wave, and
--   Paint/Node what is sent to a node and fetched from it. A call leaves the desk as it stands
--   when an exception is raised. Paint/Outbox has the steps of the desk, as a relation.
-- * src/desmata/session.py, `BasicContext.home_for` of src/desmata/cell_factory.py and
--   `Cell.session` of src/desmata/interface.py, the scope of a session and its home: Session, on
--   the file system of Disk. Session/Traces, Session/Scopes and Session/Leaves say what a session
--   changes, Session/Refusals what it raises, and Session/Seeded and Session/Determined compare
--   two sessions.
-- * `Nix.dep_dags` of src/desmata/nix.py, the trees of a closure: Nix. `built_trees` is read off
--   the trees that were yielded. Nix/Queue, Nix/Rounds and Nix/Loop hold the invariants of its
--   loop, Nix/Whole those of its trees.
-- * `BasicContext.get_env_filter` of src/desmata/cell_factory.py, the environment of a cell's
--   tools: Environ. `re.match` and the two states of `os.environ` are arguments.
-- * src/desmata/serve.py, the daemon of a cell's ipfs: Serve. The world outside, with the
--   daemon's process and the clock, is the parameter `Host`, and Serve/Stopped says what it
--   documents.
-- * src/desmata/keys.py, the signing key of a peer: Keys, on the file system of Disk. Ed25519 and
--   base64 are parameters. Keys/Verified joins it with Provenance and Paint/Node.
-- * `BasicContext.internalize_ids_hashes` of src/desmata/cell_factory.py and `create_hard_links`
--   of src/desmata/fs.py, dependencies that are brought into the store: Internal, on the file
--   system of Disk. The hash of a path is a parameter, and so is where a walk over a tree stops
--   (`Stops`); its names of folders are those of Content.
-- * docs/search.js, the search box of the generated documentation: Search.
--
-- Exceptions are values (Prelude/Results), and texts are lists of code points (Prelude/Texts).
-- What the repository does not hold is a parameter: the interpreter's floats and Unicode tables
-- (`Runtime` of Wave/Value), `json.loads`, SHA-256 and UTF-8 (`Hashing` of Provenance), a node's
-- answers (`Node` of Paint/Node), the engine and the extractor of an interface (arguments in
-- Paint/Witness), `ipfs` (`Ipfs` of Archive/Manifest with `Parcels` of Archive/Parcel, and
-- `Bundler` of Transport/Carriage, whose state is passed along), `nix` (`Nix` of
-- Transport/Carriage), the name that `mkdtemp` picks and a cell's setup and teardown (`Context`
-- and arguments in Session), a directory as the operating system and `pathlib` show it (`CellDir`
-- of Archive/Cell), and the search engine (`Engine` of Search). The records `Stores`, `Addresses`
-- and `Travels` of Archive, `Bundles` and `Moves` of Transport/Arrival, `Observed` of Search,
-- `StayBelow` of Internal/Kept, `Documented` and `Undisturbed` of Serve/Stopped and `Utf8` of
-- Paint/References name what those parts document, and the Examples files give instances.
--
-- Fuel: `decode` takes twice the length of the text and two more, since each call of the parser
-- uses a character or is followed by one that does. A type table of wit.py may refer to itself,
-- so `render_ref` has no bound of its own, and its fuel is an argument. `topo_order` takes one
-- unit more than the closure has members, since each round adds a member. `dep_dags` takes one
-- unit for each leaf, and for each member as many as there are members, since a path that is
-- processed adds its parents to the queue. `wait_ready` takes one unit for each tenth of a second
-- of its timeout, and two more.
--
-- Not modelled: the loading of a cell's class (reflection), the extraction of an interface by
-- `wasm-tools`, the requests over HTTP, texts with lone surrogates (which `str.encode` refuses),
-- links, permissions and `..` in the file system of Disk, and the parts of the program that print
-- or start other programs.
pub mod Prelude
pub mod Content
pub mod Wave
pub mod Wit
pub mod Search
pub mod Archive
pub mod Transport
pub mod Artifact
pub mod Dumps
pub mod Provenance
pub mod Paint
pub mod Disk
pub mod Session
pub mod Nix
pub mod Environ
pub mod Serve
pub mod Keys
pub mod Internal
