-- ===== src/Lib.antt =====
-- The part of RAMI-Ledger modelled here is the city viewer of its desktop program, the JavaScript under
-- chain/crates/rami-gui/src. The viewer draws the ledger's parcels: it takes the shape and the
-- clothing of a building from integer seeds that must agree on every machine, and its terrain from a
-- PNG of heights, which it decodes itself where the browser does not.
--
-- Prelude and its children hold what the modules share: the libraries' names, tests on numbers,
-- lists. Result is what the decoders return: a value, a thrown error, or `unfinished` where a loop
-- has used up its fuel.
--
-- Words: the 32-bit arithmetic of JavaScript (`Math.imul`, `>>>`, `^`) on natural numbers, the
-- wrap-around written out, and the laws by which these operations can be undone.
-- Semillas: city3d.js, `fnv1a`, `strSeed`, `semillaMorfologia`, `semillaRopaje`, `lcg`. Texto is
-- about printed numbers, Inyectivas about which inputs can share a seed.
-- Inflate: city3d.js, `buildTree` and `inflate`. Reader is the bit reader (`bit`, `bits`), Tree is
-- `buildTree` and `decodeSym`, Codes the loops over symbols, Blocks the kinds of block and the outer
-- loop. Stored, Symbols, Fuel and Spent prove. The output is kept reversed, so that a push is a cons.
-- Png: city3d.js, `parsePng` (Parse), `unfilterPng` (Unfilter), `decodePngGray` and
-- `decodePngGrayAsync` (Decode). Filters, Chunks and Written describe the files that a writer lays
-- out, Total and Async prove. The browser's `DecompressionStream` is a parameter.
-- Tormenta: city/extras.js, the storm calendar (`diaDubai`, `tormentaDelDia`, `proximasTormentas`),
-- the cache of today's storm (`intensidadCalendario`, `tormentaEnCurso`) and `botonTormenta`. Dia is
-- about the hours of a storm, Proximas about the list of the next ones, Boton about the states that
-- frames and presses of the button reach.
-- Ganchos: city3d.js, `extLlama`, `emitir`, `emitirHasta`, `emitirValor`. The extensions' hooks are
-- parameters, functions that return or throw.
-- Tramos: city3d.js, `fundeTramos`, `restaTramos`, `enTramo`, over any numbers with an order like that
-- of the finite floating-point numbers; the library's `sort` is a parameter.
-- Memoria: city/memoria.js, `nivelPatina` (Nivel) and `encargos` (Cuentas, Encargos), the latter but
-- for the cell that it picks in a district; the two calls of `sort` are parameters.
-- Viviendas: city/umbral.js, `sitioUnidad` and `numeroUnidad`, the homes of a building and their
-- numbers.
-- Vida/Calle: city/vida.js, `enVentana`, with its binary search on fuel, the number of the times, which is
-- enough since every round leaves fewer; Ventanas is about it.
-- Umbral: city/umbral.js, the interiors. Estado is the state, Pisos `leePiso`, `guardaPiso` and
-- `restauraPiso` (with `encaja`; Anotados and Guardado are about them), Casas the house that is
-- open, Pasos `corre`, `avanza` and the steps of a guided walk, as data with the functions that the
-- source makes of them, Recorridos `entrar`, `salirYa`, `salirAndando`, `tomaAscensor` and the
-- hooks, Muebles `conmuta`, `mueveSel` and `giraSel`, Teclas the hooks `tecla` and `clic`, Choques
-- the walking with no guide, `andaDentro`, with its collisions, `empuja` and `solidosDe`, in the
-- spaces of Salas (Limites is about it), Patios that in a courtyard, `andaPatio`; Dentro, Rondas,
-- Entradas, Luces, Manos and Visitas are about what holds inside. What the module builds a house
-- with is the record `Taller`, what the eye or the ray of a click finds the record `Mano`;
-- `salirYa` calls `empujarFuera` of Catastro.
-- Camara: city3d.js, the camera: `setMode`, `ponVista`, `puntoAPie`, and in Camara/Medida the measure of
-- fluency, `bench`, `benchFrame`, `benchFin`; Camara/Foto is the photo mode of city/extras.js, `entraFoto`,
-- `saleFoto`, `camaraLibre`, `cuadroFoto` and its buttons, which changes the mode with `setMode` and pushes
-- the walker with `empujarFuera` of Catastro. Medidas, Fotos and Salidas are about them. The views
-- of the city and what the hooks of a change of mode do are parameters, in the record `Ciudad`.
-- Vida/Cuadro: city/vida.js, the frame `cuadro` with `avanzaReloj`, `zonasCerca`, `enLaCalle`, `trabajoPaso`
-- and `trabajoFin`; it asks Vida/Calle for the trips and Vida/Rutas for the ways. Marcas and Dibujados are
-- about it, Vida/Enteros is an instance of its numbers. Vida/Empujones is its hook `empujar`.
-- Presencia: city3d.js, `setPresence`; Lista is about it.
-- Sonido: city/extras.js, `alternaSonido`, `primerGesto`, `visibilidad` and the timers; a call of `resume()`
-- or `suspend()` is under way until an event carries it out. Gestos is about them.
-- Transporte: city/extras.js, the metro (Trenes: its timetable, `tiempoTramo`, `avanceTramo`, `posTren`)
-- and the boats (Barcos: `lazo`, `posBarco`), with the binary search of both, whose fuel is the length of
-- the list, enough since every round leaves fewer; Horas and Lados are about them.
-- Memoria/Guia: city/memoria.js, the guide of the first day, its `marca`, `abreGuia`, `guarda`.
-- Distritos: city3d.js, `esMar` and `districtOf`.
-- Catastro: city3d.js, the register of the solids of the city, a list of them and a grid of cells with
-- their numbers (`catastroNuevo`, `catastroAlta`, `catastroReconstruye`, `catastroQuita`); Consultas has
-- `huellaLibre`, `aLocal`, `empujarFuera`, `solidoBajo`, and Rayo `cortaCaja` and `rayoSolido`. Indice is
-- about the grid, Celdas about its loops, Preguntas, Huellas, Salientes,
-- Empujes and Cortes about the answers. The
-- numbers are the record `Flotantes`, of which Flotantes/Enteros is an instance to run the code on.
-- Vida: city/vida.js, the people of the city. Azar is `mezcla`, `sorteo` and the draws, Diario the trips
-- (`viaje`) and the actions that write them, Agenda `agenda`; Empleo is `plantilla` and `recluta`,
-- which hands out the jobs of a company, and Oficinas `zonasDeOficina`, `gravedad` and `destino`,
-- which gives an office to who has no such job and then asks `agenda` for the day. Caminos is
-- `arbolDe`, the shortest ways over the pavements of a zone by a heap of integer distances, and
-- `hastaAcceso`. Obra is `trabajoNuevo`, `fases` and the frames that go on with the work (Cortes, Plazo,
-- Final); what its phases call is a record of operations, `Oficios`, and a look at the clock is a count
-- of the looks that it still lets pass. Rutas is `rutaDe`, `horario` and
-- `andadoEn`, Rutas/Guardadas the ways that are kept (`transcurrido`, `suelta`, `posicion`, `poda`),
-- over any numbers with a few operations and over any lines. Distances, floors
-- and the kind of a zone, which the source takes from floating-point geometry, are parameters; so is
-- the product of a draw that rounds.
--
-- Bounds and fuel: `inflate` takes the number of rounds its loops may make, since the code's loops
-- are not bounded. `parsePng` needs none from outside: a round passes at least twelve bytes, and the
-- length of the file is enough. The loop over code lengths advances in every round, so that the
-- number of lengths is enough. `toString` prints with as many digits as the number can have.
-- `arbolDe` takes the number of rounds of its loop: `enough` is one more than twice the sum, over the
-- nodes, of a bound on their distances, since every push makes that sum less. `rayoSolido` takes the
-- number of rounds too: one more than the steps that go past the distance asked.
--
-- Not modelled: the scene, its meshes and shaders, the traffic of cars, the reflections of espejismo.js,
-- and the floating-point geometry that lays out streets, plans and meshes: what of it the modelled code
-- asks for is a parameter, and where a definition computes with fractions, the numbers are. Nor the page
-- around the viewer, the generated dictionary i18n.js, three.js, and the Rust crates of the ledger.
pub mod Camara
pub mod Catastro
pub mod Distritos
pub mod Flotantes
pub mod Ganchos
pub mod Inflate
pub mod Memoria
pub mod Png
pub mod Prelude
pub mod Presencia
pub mod Result
pub mod Semillas
pub mod Sonido
pub mod Tormenta
pub mod Tramos
pub mod Transporte
pub mod Umbral
pub mod Vida
pub mod Viviendas
pub mod Words
