-- ===== src/Umbral/Tests.antt =====
-- A tower of whole numbers: a floor that is kept, and a visit by the lift.
use rami_ledger.Prelude.{◌≡◌, refl, Bool, true, false, Option, none, some, List, [], ◌∷◌, arith}
use rami_ledger.Flotantes.{pos, negsuc}
use rami_ledger.Flotantes.Enteros.{enteros}
use rami_ledger.Umbral.Estado.{
  al_piso, bloque, Cual, la_planta, orbita, Mueble, Espacio, Portal, PlanCasa, Casa, Visita,
}
use rami_ledger.Umbral.Pisos.{luces, encaja, Datos, Navegador, lee_piso, guarda_piso, restaura_piso}
use rami_ledger.Umbral.Anotados.{EsAnotable}
use rami_ledger.Umbral.Guardado.{guarda_piso-lee_piso}
use rami_ledger.Umbral.Salas.{Pulsadas}
use rami_ledger.Umbral.Casas.{Taller}
use rami_ledger.Umbral.Pasos.{rondas_seq}
use rami_ledger.Umbral.Recorridos.{entrar, toma_ascensor, gancho_andar}
use rami_ledger.Umbral.Dentro.{IsDentro}
use rami_ledger.Umbral.Teclas.{Mano, el_mueble, la_lampara, t_f, accion, gancho_tecla, gancho_clic}
use rami_ledger.Umbral.Visitas.{
  tecla, clic, Orden, entra, ascensor, anda, hace, hacen, hacen-IsDentro,
}

abbrev navegador : Navegador enteros (Datos enteros)
navegador = record { parse = λ d. some d; stringify = λ d. d; cabe = λ k t. true }

abbrev silla : Mueble enteros
silla = record {
  id = 3;
  mx = pos 0;
  mz = pos 0;
  r = 2;
  x0 = pos 5;
  z0 = negsuc 1;
  r0 = 0;
  habitacion = record { x0 = negsuc 9; x1 = pos 20; z0 = negsuc 9; z1 = pos 20 };
  sx = pos 2;
  sz = pos 4;
}

abbrev mesa : Mueble enteros
mesa = record silla {
  id = 4;
  r = 1;
  habitacion = record { x0 = pos 0; x1 = pos 9; z0 = negsuc 9; z1 = pos 9 };
}

abbrev estudio : Espacio enteros
estudio = record {
  piso_id = some 12;
  muebles = silla ∷ mesa ∷ [];
  lamparas = some (record { on = true; fija = false; techo_fijo = false }) ∷ none ∷ [];
  recuperado = false;
  yb = pos 36;
  salida_z = pos 9;
  puerta_piso = none;
}

silla-EsAnotable : EsAnotable enteros navegador silla
silla-EsAnotable = record {
  escribe_x = record { es_finito = refl; sin_menos_cero = refl };
  escribe_z = record { es_finito = refl; sin_menos_cero = refl };
  girado = omega arith;
}

mesa-EsAnotable : EsAnotable enteros navegador mesa
mesa-EsAnotable = record {
  escribe_x = record { es_finito = refl; sin_menos_cero = refl };
  escribe_z = record { es_finito = refl; sin_menos_cero = refl };
  girado = omega arith;
}

-- The table stood in the wall of its room, and is fitted in it.
abbrev vuelve : Espacio enteros
vuelve = record estudio { muebles = silla ∷ record mesa { mx = pos 10 } ∷ []; recuperado = true }

guarda_piso-lee_piso_example :
    let g = guarda_piso enteros navegador (some estudio) (λ k. none) in
    (g.0 ≡ true)
    × (lee_piso enteros navegador g.1 (restaura_piso enteros navegador estudio g.1).1.0 ≡ vuelve)
unfolding encaja
guarda_piso-lee_piso_example =
    guarda_piso-lee_piso enteros navegador 12 estudio (λ k. none) refl refl (λ d h. refl)
      ((omega arith, tt), (tt, tt)) (silla-EsAnotable, (mesa-EsAnotable, tt))

abbrev portal : Portal enteros
portal = record {
  ox = pos 100;
  oy = pos 0;
  oz = pos 100;
  giro = pos 0;
  px = pos 0;
  zf = pos 10;
  z_acera = pos 12;
  patio = false;
}

abbrev plan : PlanCasa enteros
plan = record {
  tipo = bloque;
  suelo = pos 0;
  cab_z0 = pos 0;
  cab_z1 = pos 2;
  ex = pos 0;
  z_l0 = pos 3;
  centro_x = pos 0;
  frente_z = pos 10;
  plantas = 1 ∷ 4 ∷ 7 ∷ [];
}

abbrev zaguan : Espacio enteros
zaguan = record estudio { muebles = []; piso_id = none }

abbrev en_reposo : Pulsadas
en_reposo = record {
  w = false;
  s = false;
  a = false;
  d = false;
  arrowup = false;
  arrowdown = false;
  arrowleft = false;
  arrowright = false;
  shift = false;
  q = false;
  e = false;
}

abbrev taller : Taller enteros (Datos enteros)
taller = record {
  nav = navegador;
  planifica = λ po. plan;
  construye = λ po p. zaguan;
  construye_planta = λ p piso. estudio;
  elige_piso = λ p. record { obj = 0; planta = 1 };
  suelo_en = λ x z. pos 0;
  catastro = none;
  a_pie_desde = λ p. p;
  celda_patios = λ x z. [];
  dibujado = λ po. true;
  speed = pos 1;
  sala_de = λ c e. record {
    solidos = [];
    enseres = [];
    cab = none;
    limites = record { x0 = negsuc 8; x1 = pos 9; z0 = negsuc 8; z1 = pos 9 };
    boca = none;
    suelo = pos 0;
  };
}

abbrev quieto : Visita enteros (Datos enteros)
quieto = record {
  ready = true;
  xr = false;
  modo = orbita;
  pie = record { x = pos 100; y = pos 0; z = pos 120; yaw = pos 0; pitch = pos 0; fly = pos 0 };
  casa = none;
  seq = none;
  sel = none;
  hojas = pos 0;
  congelado = false;
  almacen = λ k. none;
}

-- To the fifth floor, where the nearest that has homes is the fourth.
abbrev mano : Mano enteros (Datos enteros)
mano = record { objetivo = λ w. some (la_lampara 0); toca_puerta = λ po. true }

abbrev visita : List (Orden enteros (Datos enteros) taller mano)
visita =
    entra (some portal) (record { inmediato = true; planta = some 5; obj = 1 })
    ∷ ascensor (al_piso (record { obj = 1; planta = 4 })) false
    ∷ anda (pos 100) en_reposo
    ∷ anda (pos 100) en_reposo
    ∷ anda (pos 100) en_reposo
    ∷ []

abbrev que_se_ve : Option (Casa enteros) → Option Cual × Bool
que_se_ve none = (none, false)
que_se_ve (some c) = (c.visible, c.solo_cabina)

riding : que_se_ve (hacen enteros (Datos enteros) taller mano visita quieto).casa ≡ (none, true)
unfolding entrar toma_ascensor gancho_andar rondas_seq lee_piso
riding = refl

arrived :
    que_se_ve
      (hace enteros
        (Datos enteros)
        taller
        mano
        (anda (pos 100) en_reposo)
        (hacen enteros (Datos enteros) taller mano visita quieto)).casa
    ≡ (some la_planta, false)
unfolding entrar toma_ascensor gancho_andar rondas_seq lee_piso
arrived = refl

-- Then out of the lift, a key that puts the lamp out, and a click on a piece of furniture.
abbrev tarde : List (Orden enteros (Datos enteros) taller mano)
tarde =
    entra (some portal) (record { inmediato = true; planta = some 5; obj = 1 })
    ∷ ascensor (al_piso (record { obj = 1; planta = 4 })) true
    ∷ tecla none t_f false true
    ∷ clic none (some (el_mueble 1))
    ∷ []

abbrev luces_de : Option (Casa enteros) → List Bool
luces_de none = []
luces_de (some c) = elim c.planta [
  | none ↦ []
  | some p ↦ luces enteros navegador p.espacio.lamparas
]

lamp_out :
    luces_de (hacen enteros (Datos enteros) taller mano tarde quieto).casa ≡ false ∷ false ∷ []
unfolding entrar toma_ascensor accion gancho_tecla gancho_clic lee_piso guarda_piso
lamp_out = refl

hacen-IsDentro_example :
    IsDentro enteros (Datos enteros) (hacen enteros (Datos enteros) taller mano tarde quieto)
hacen-IsDentro_example = hacen-IsDentro enteros (Datos enteros) taller mano tarde quieto
