-- ===== src/Vida/Obra/Tests.antt =====
-- A small city, on which the building of the population runs to its end.
use rami_ledger.Prelude.{ℕ, suc, ◌≤◌, ◌≡◌, refl, true, some, List, [], ◌∷◌, length}
use rami_ledger.Vida.Obra.{
  calzada, Obra, Oficios, trabajo_nuevo, vuelta_fase, acabada, fases, cuadros,
}
use rami_ledger.Vida.Obra.Plazo.{IsOficios}
use rami_ledger.Vida.Obra.Final.{work_ends}

-- The state counts the rounds that do work.
abbrev oficios : Oficios ℕ
oficios = record {
  hay_calles = true;
  vias = 13;
  nuevo_asfalto = λ w. w;
  indice_asfalto = λ k w. suc w;
  indice_cebras = λ w. w;
  tramas = 1;
  lado = λ i. 1;
  zona_de_trama = λ i w. w;
  cruce_grafo = λ i k j w. suc w;
  cierra_grafo = λ i w. w;
  barrios = 1;
  edificios = λ i. 2;
  portal = λ i j w. (true, suc w);
  lee_parcelas = λ w. w;
  n_parcelas = 1;
  parcela_empresa = λ i w. suc w;
  n_casas = λ w. 2;
  vecinos = λ i w. suc w;
  n_empresas = λ w. 1;
  recluta = λ i w. suc w;
  zonas_de_oficina = λ w. w;
  n_personas = λ w. 3;
  destino = λ i w. suc w;
  n_zonas = λ w. 1;
  ordena_zona = λ i w. suc w;
  duraciones = λ w. w;
  a_calentar = λ w. w;
  n_pre = λ w. 1;
  calienta_viaje = λ i w. suc w;
}

abbrev oficios-IsOficios : IsOficios oficios
oficios-IsOficios = record {
  casas_kept = λ i w. refl;
  empresas_kept = λ i w. refl;
  personas_kept = λ i w. refl;
  zonas_kept = λ i w. refl;
  pre_kept = λ i w. refl;
}

-- Two ways, nine crossings, two doors, a parcel, two homes, a firm, three people, a zone and a trip.
abbrev al_final : Obra ℕ
al_final = record (trabajo_nuevo true 22) {
  i = 1;
  k = 3;
  con_asfalto = true;
  con_pcs = true;
  con_oficinas = true;
  con_pre = true;
}

runs : fases oficios 60 60 calzada (trabajo_nuevo true 0) ≡ some (acabada al_final)
unfolding fases vuelta_fase
runs = refl

slices :
    cuadros oficios 60 (0 ∷ 5 ∷ 1 ∷ 20 ∷ []) calzada (trabajo_nuevo true 0)
    ≡ some (acabada al_final)
unfolding cuadros fases vuelta_fase
slices = refl

work_ends_example :
    (k : ℕ) × ((u : Obra ℕ) × ((rounds : ℕ)
        → k ≤ rounds
        → (fases oficios rounds rounds calzada (trabajo_nuevo true 0) ≡ some (acabada u))
          × ((plazos : List ℕ)
              → k ≤ length plazos
              → cuadros oficios rounds plazos calzada (trabajo_nuevo true 0) ≡ some (acabada u))))
work_ends_example = work_ends oficios oficios-IsOficios true 0
