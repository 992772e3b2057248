-- ===== src/Camara/Tests.antt =====
-- A measure and a photo in whole numbers.
use rami_ledger.Prelude.{
  if◌then◌else◌, not, ◌≢◌, arith, ℕ, ◌≡◌, refl, Bool, true, false, Option, none, some, List, [],
  ◌∷◌, ◌==◌,
}
use rami_ledger.Flotantes.{pos}
use rami_ledger.Flotantes.Enteros.{enteros}
use rami_ledger.Catastro.{Catastro}
use rami_ledger.Camara.{orbita, Vec3, Orbita, Camara, Ciudad, set_mode}
use rami_ledger.Camara.Medida.{Medida, Banco, Cuadro, en_vr, bench, bench_frame, cuadros_medidos}
use rami_ledger.Camara.Medidas.{Termina, bench_lem}
use rami_ledger.Camara.Foto.{
  Foto, Pantalla, entra_foto, sale_foto, camara_libre, cuadro_foto, Boton, libre, nivel, travelling,
  guardar, captura, cuadro, pasa_cuadro, pulsan,
}
use rami_ledger.Camara.Fotos.{Distintos}
use rami_ledger.Camara.Salidas.{ComoAntes, sale_foto-entra_foto}

abbrev lugar_en : ℕ → ℕ → Vec3 enteros
lugar_en a b = record { x = pos a; y = pos 0; z = pos b }

abbrev vista : ℕ → Orbita enteros
vista r = record { theta = pos 1; phi = pos 1; radius = pos r; target = lugar_en 5 6 }

abbrev ciudad : Ciudad enteros
ciudad = record {
  sel = none;
  cell = pos 30;
  cos_r = pos 1;
  sin_r = pos 0;
  sin_hitos = λ a b. (a, b);
  min_r = pos 10;
  max_r = pos 900;
  vista_ciudad = vista 800;
  vista_centro = vista 200;
  torre = some (record { lugar = lugar_en 1 2; alto = pos 100; ancho = pos 20 });
  tramas = record { alcance = pos 300; ang = pos 0; paso = pos 40; tx = pos 7; tz = pos 8 } ∷ [];
  centro_x = pos 0;
  centro_z = pos 0;
  al_cambiar = λ m p. p;
}

abbrev camara : Camara enteros
camara = record {
  modo = orbita;
  pose = record {
    cur = vista 400;
    goal = vista 500;
    flight = some 3;
    andar = record { pos = lugar_en 0 0; yaw = pos 0; pitch = pos 0; fly = pos 0 };
  };
  fov = pos 50;
}

abbrev banco : Banco enteros
banco = record { camara = camara; bench = none; informes = [] }

abbrev cuadro_a : ℕ → Cuadro enteros
cuadro_a t = record { now = pos t; triangles = 9; calls = 2 }

-- Three seconds of warming up, counting and passing on, for four places, and the end.
abbrev medidos : List (Cuadro enteros)
medidos =
    cuadro_a 0
    ∷ cuadro_a 1000
    ∷ cuadro_a 2000
    ∷ cuadro_a 2010
    ∷ cuadro_a 3100
    ∷ cuadro_a 4500
    ∷ cuadro_a 4510
    ∷ cuadro_a 5600
    ∷ cuadro_a 6700
    ∷ cuadro_a 6710
    ∷ cuadro_a 7800
    ∷ cuadro_a 8900
    ∷ cuadro_a 8910
    ∷ []

abbrev medido : Banco enteros
medido = cuadros_medidos enteros ciudad medidos (bench enteros true false (pos 1) banco).1

abbrev terminada : Option (Medida enteros) → Bool
terminada none = true
terminada (some b) = false

medido_ends : terminada medido.bench ≡ true
unfolding bench bench_frame set_mode
medido_ends = refl

bench_vr : (bench enteros true true (pos 1) banco).0 ≡ some en_vr
unfolding bench
bench_vr = refl

bench_lem_example :
    let t = cuadros_medidos enteros ciudad medidos (bench enteros true false (pos 1) banco).1 in
    Termina enteros camara [] t.bench t
bench_lem_example = bench_lem enteros ciudad banco (pos 1) medidos refl refl

abbrev foto : Foto enteros
foto = record {
  activo = false;
  focal = pos 24;
  nivel = false;
  travelling = false;
  pendiente = false;
  guardado = none;
  ocultas = [];
  objetos = [];
}

abbrev pantalla : Pantalla enteros
pantalla = record {
  ready = true;
  xr = false;
  frame = 16;
  camara = camara;
  hijos = 1 ∷ 4 ∷ [];
  display = λ k. if k == 4 then 2 else 1;
  estilo = none;
  scroll = (pos 0, pos 12);
  barra = false;
  etiquetas = 2 ∷ 3 ∷ [];
  se_ve = λ k. not (k == 3);
  marcas = 7 ∷ [];
  se_marca = λ k. true;
  foto = foto;
}

abbrev sin_catastro : Option (Catastro enteros ℕ)
sin_catastro = none

abbrev botones : List (Boton enteros ciudad sin_catastro)
botones =
    libre
    ∷ travelling
    ∷ cuadro (pos 1)
    ∷ nivel
    ∷ guardar
    ∷ captura
    ∷ pasa_cuadro
    ∷ cuadro (pos 1)
    ∷ []

abbrev en_foto : Pantalla enteros
en_foto = pulsan enteros ciudad sin_catastro 9 botones (entra_foto enteros 9 pantalla)

en_foto_hides : en_foto.display 4 ≡ 0
unfolding entra_foto camara_libre cuadro_foto set_mode
en_foto_hides = refl

sale_foto-entra_foto_example :
    ComoAntes enteros ciudad sin_catastro 9 pantalla (sale_foto enteros ciudad sin_catastro en_foto)
sale_foto-entra_foto_example =
    sale_foto-entra_foto enteros ciudad sin_catastro 9 pantalla botones refl refl refl refl refl
      two_children
  where
    two_children : Distintos (1 ∷ 4 ∷ [])
    two_children = ((four_one, tt), (tt, tt))
      where
        four_one : ◌≢◌ {A = ℕ} 4 1
        four_one e = omega arith
